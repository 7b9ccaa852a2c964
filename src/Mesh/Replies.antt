-- ===== src/Mesh/Replies.antt =====
-- What a node does with a path reply.
use rsticulum.Prelude.{ℕ, suc, ◌+◌, ◌%◌, ◌≤◌, ◌≡◌, some, get_elem?, leb_of_le, ok, panic}
use rsticulum.Identity.RnsAddress.{RnsAddress, IdentityError}
use rsticulum.Identity.RnsAddress as AddressModule
use rsticulum.Mesh.{Qualities, MeshRouter, PathReply, position, at_position, handle_path_reply}

module _ (q : Qualities) where
  -- A node that stands in the route of a reply, not first, panics if the hop count of the reply and
  -- its own position modulo 256 add up to 256 or more.
  pub handle_path_reply-overflow :
      (reply : PathReply q.Quality) (r : MeshRouter q.Quality) (local_addr dest before : RnsAddress)
      (n now : ℕ)
      → AddressModule.from_bytes reply.destination_hash ≡ ok dest
      → position local_addr reply.route ≡ some (suc n)
      → get_elem? reply.route n ≡ some before
      → 256 ≤ reply.hop_count + suc n % 256
      → handle_path_reply q reply r local_addr now ≡ panic
  unfolding handle_path_reply at_position
  handle_path_reply-overflow reply r local_addr dest before n now parsed at prev large = rw (
    handle_path_reply,
    parsed,
    at,
    at_position,
    prev,
    leb_of_le 256 (reply.hop_count + suc n % 256) large,
  )
