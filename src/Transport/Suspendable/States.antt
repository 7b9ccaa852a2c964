-- ===== src/Transport/Suspendable/States.antt =====
-- crates/transport/src/suspendable.rs: the states of a link as a step relation, and what holds in each.
use rsticulum.Prelude.{ℕ, ◌≡◌, refl, sym, Bool, Bytes}
use mathlib.Core.Path.{subst}
use rsticulum.Identity.RnsAddress.{RnsAddress}
use rsticulum.Packet.{Packet}
use rsticulum.Transport.Signer.{Signer}
use rsticulum.Transport.Link.{LinkConfig}
use rsticulum.Transport.Suspendable.{
  Sessions, Disk, Link, with_config_and_storage, establish, complete_handshake, suspend,
  handle_disconnect, resume, close,
}
use rsticulum.Transport.Suspendable.Messages.{send, replay_held, deliver, recv}
use rsticulum.Transport.Suspendable.Validity.{
  IsValid, new-IsValid, establish-IsValid, complete-IsValid, suspend-IsValid, disconnect-IsValid,
  resume-IsValid, send-IsValid, replay-IsValid, deliver-IsValid, recv-IsValid, close-IsValid,
}

module _ (s : Signer) (t : Sessions s) where
  -- The calls on a link, with the file before and after.
  pub data Step (l : Link s t) (disk : Disk) (l' : Link s t) (disk' : Disk) : Type 0 where
    establishes : l' ≡ (establish s t l).1 → disk' ≡ disk → Step l disk l' disk'
    completes :
        (proof_bytes : Bytes)
        → l' ≡ (complete_handshake s t l proof_bytes).1
        → disk' ≡ disk
        → Step l disk l' disk'
    suspends :
        (now : ℕ)
        → l' ≡ (suspend s t l disk now).1
        → disk' ≡ (suspend s t l disk now).2
        → Step l disk l' disk'
    disconnects :
        (now : ℕ)
        → l' ≡ (handle_disconnect s t l disk now).1
        → disk' ≡ (handle_disconnect s t l disk now).2
        → Step l disk l' disk'
    resumes : l' ≡ (resume s t l disk).1 → disk' ≡ disk → Step l disk l' disk'
    closes : l' ≡ (close s t l disk).1 → disk' ≡ (close s t l disk).2 → Step l disk l' disk'
    sends : (text : Bytes) → l' ≡ (send s l text).1 → disk' ≡ disk → Step l disk l' disk'
    replays : l' ≡ (replay_held s l).1 → disk' ≡ disk → Step l disk l' disk'
    delivers : (packet : Packet) → l' ≡ (deliver s l packet).1 → disk' ≡ disk → Step l disk l' disk'
    receives : l' ≡ (recv s l).1 → disk' ≡ disk → Step l disk l' disk'
    -- Another program writes or removes the file, or changes its permissions.
    changes : l' ≡ l → Step l disk l' disk'

  pub data Reach (l : Link s t) (disk : Disk) : Link s t → Disk → Type 0 where
    here : Reach l disk l disk
    next : {m n : Link s t} {d e : Disk} → Reach l disk m d → Step m d n e → Reach l disk n e

  Step-IsValid :
      {l l' : Link s t} {disk disk' : Disk} → Step l disk l' disk' → IsValid s t l → IsValid s t l'
  Step-IsValid {l} (establishes e d) v =
      subst (IsValid s t) (sym e) (establish-IsValid s t l.state l refl v)
  Step-IsValid {l} (completes bs e d) v =
      subst (IsValid s t) (sym e) (complete-IsValid s t l.state l bs v)
  Step-IsValid {l} {disk = disk} (suspends now e d) v =
      subst (IsValid s t) (sym e) (suspend-IsValid s t l.state l disk now refl v)
  Step-IsValid {l} {disk = disk} (disconnects now e d) v =
      subst (IsValid s t) (sym e) (disconnect-IsValid s t l.state l disk now v)
  Step-IsValid {l} {disk = disk} (resumes e d) v =
      subst (IsValid s t) (sym e) (resume-IsValid s t l.state l disk v)
  Step-IsValid {l} {disk = disk} (closes e d) v =
      subst (IsValid s t) (sym e) (close-IsValid s t l disk v)
  Step-IsValid {l} (sends text e d) v =
      subst (IsValid s t) (sym e) (send-IsValid s t l.state l text refl v)
  Step-IsValid {l} (replays e d) v = subst (IsValid s t) (sym e) (replay-IsValid s t l v)
  Step-IsValid {l} (delivers packet e d) v =
      subst (IsValid s t) (sym e) (deliver-IsValid s t l packet v)
  Step-IsValid {l} (receives e d) v =
      subst (IsValid s t) (sym e) (unfold recv in recv-IsValid s t l.inbound l.state l refl refl v)
  Step-IsValid (changes e) v = subst (IsValid s t) (sym e) v

  -- A new link, after any calls and whatever happens to the file meanwhile: while it is active or
  -- suspended it has the key of its peer, while it is closed it has no key and no message, and its
  -- transport id is always that of the two addresses.
  pub Reach-IsValid :
      (local : s.Keys) (remote : RnsAddress) (identity_key encryption_key : Bytes)
      (config : LinkConfig) (has_storage : Bool) (disk disk' : Disk) (l : Link s t)
      → Reach
          (with_config_and_storage s t local remote identity_key encryption_key config has_storage)
          disk
          l
          disk'
      → IsValid s t l
  Reach-IsValid local remote identity_key encryption_key config has_storage disk disk' l here =
      new-IsValid s t local remote identity_key encryption_key config has_storage
  Reach-IsValid local remote identity_key encryption_key config has_storage disk disk' l
        (next r step) =
      Step-IsValid step
        (Reach-IsValid local remote identity_key encryption_key config has_storage disk _ _ r)
