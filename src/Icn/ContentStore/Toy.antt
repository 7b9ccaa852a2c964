-- ===== src/Icn/ContentStore/Toy.antt =====
-- A list as a least-recently-used cache, which shows that its promises can be kept.
use rsticulum.Prelude.{ℕ, refl, List, [], ◌∷◌, take, get, remove}
use rsticulum.Icn.Name.{Name}
use rsticulum.Icn.Pit.{name_keys}
use rsticulum.Icn.ContentStore.{CachedData, Lru, IsLru, moved}

pub record Entries : Type 0 where
  pub held : List (Name × CachedData)
  pub most : ℕ

abbrev pub toy_lru : Lru
toy_lru = record {
  Cache = Entries;
  empty = λ n. record { held = []; most = n };
  iter = λ c. c.held;
  look = λ k c. (get k c.held, record c { held = moved k (get k c.held) c.held });
  peek = λ k c. get k c.held;
  put = λ k v c. (get k c.held, record c { held = take c.most ((k, v) ∷ remove k c.held) });
  capacity = λ c. c.most;
}

pub toy-IsLru : IsLru toy_lru
toy-IsLru = record {
  iter_empty = λ n. refl;
  capacity_empty = λ n. refl;
  look_value = λ k c. refl;
  iter_look = λ k c. refl;
  capacity_look = λ k c. refl;
  peek_value = λ k c. refl;
  put_value = λ k v c. refl;
  iter_put = λ k v c. refl;
  capacity_put = λ k v c. refl;
}
