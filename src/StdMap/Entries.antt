-- ===== src/StdMap/Entries.antt =====
-- The laws of `std::map` that need no order of the keys.
use teachserver.Base.{ℕ, ◌+◌, ◌≤◌, ◌≡◌, ◌≢◌, refl, none, some, [], ◌∷◌, arith, length}
use teachserver.StdMap.{StdMap, find, insert, erase, assign}

module _ {ℓ} {V : Type ℓ} where
  pub assign-find : (k : ℕ) (v : V) (m : StdMap V) → find k m ≡ some v → assign k v m ≡ m
  unfolding assign find
  assign-find k v [] h = refl
  assign-find k v ((j, w) ∷ m) h = ground (arith, assign-find k v m)

  pub erase-insert : (k : ℕ) (v : V) (m : StdMap V) → find k m ≡ none → erase k (insert k v m) ≡ m
  unfolding erase insert find
  erase-insert k v [] h = ground arith
  erase-insert k v ((j, w) ∷ m) h = ground (arith, erase-insert k v m)

  pub find-insert_new :
      (k : ℕ) (v : V) (m : StdMap V) → find k m ≡ none → find k (insert k v m) ≡ some v
  unfolding insert find
  find-insert_new k v [] h = ground arith
  find-insert_new k v ((j, w) ∷ m) h = ground (arith, find-insert_new k v m)

  pub find-insert_other :
      (k j : ℕ) (v : V) (m : StdMap V) → j ≢ k → find j (insert k v m) ≡ find j m
  unfolding insert find
  find-insert_other k j v [] h = ground arith
  find-insert_other k j v ((i, w) ∷ m) h = ground (arith, find-insert_other k j v m)

  pub length-assign : (k : ℕ) (v : V) (m : StdMap V) → length (assign k v m) ≡ length m
  unfolding assign
  length-assign k v [] = refl
  length-assign k v ((j, w) ∷ m) = ground (arith, length-assign k v m)

  pub length-erase : (k : ℕ) (m : StdMap V) → length m ≤ length (erase k m) + 1
  unfolding erase
  length-erase k [] = omega arith
  length-erase k ((j, w) ∷ m) = ground (arith, length-erase k m)
