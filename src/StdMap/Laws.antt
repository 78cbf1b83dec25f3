-- ===== src/StdMap/Laws.antt =====
-- The laws of `std::map`, for maps whose keys rise in the order of iteration.
use teachserver.Base.{ℕ, ◌<◌, ◌≡◌, refl, none, some, [], ◌∷◌, arith, ◌==◌, if◌then◌else◌}
use teachserver.StdMap.{StdMap, find, insert, erase, assign, keys}

module _ {ℓ} {V : Type ℓ} where
  -- Every key is above the bound.
  abbrev pub Above : ℕ → StdMap V → Type 0
  Above b [] = Unit {0}
  Above b ((j, v) ∷ m) = (b < j) × Above b m

  -- Keys rise, so that each stands once.
  abbrev pub IsOrdered : StdMap V → Type 0
  IsOrdered [] = Unit {0}
  IsOrdered ((j, v) ∷ m) = Above j m × IsOrdered m

  pub Above-mono : {a b : ℕ} (m : StdMap V) → a < b → Above b m → Above a m
  Above-mono [] h u = tt
  Above-mono ((j, v) ∷ m) h u = (omega arith, Above-mono m h u.1)

  pub Above-insert : (b k : ℕ) (v : V) (m : StdMap V) → b < k → Above b m → Above b (insert k v m)
  unfolding insert
  Above-insert b k v [] h u = (h, tt)
  Above-insert b k v ((j, w) ∷ m) h u = ground (arith, Above-insert b k v m)

  pub insert-IsOrdered : (k : ℕ) (v : V) (m : StdMap V) → IsOrdered m → IsOrdered (insert k v m)
  unfolding insert
  insert-IsOrdered k v [] o = (tt, tt)
  insert-IsOrdered k v ((j, w) ∷ m) o =
      ground (arith, insert-IsOrdered k v m, Above-insert j k v m, Above-mono {a = k} {b = j} m)

  pub Above-erase : (b k : ℕ) (m : StdMap V) → Above b m → Above b (erase k m)
  unfolding erase
  Above-erase b k [] u = tt
  Above-erase b k ((j, w) ∷ m) u = ground (arith, Above-erase b k m)

  pub erase-IsOrdered : (k : ℕ) (m : StdMap V) → IsOrdered m → IsOrdered (erase k m)
  unfolding erase
  erase-IsOrdered k [] o = tt
  erase-IsOrdered k ((j, w) ∷ m) o = ground (arith, erase-IsOrdered k m, Above-erase j k m)

  pub find-Above : (k : ℕ) (m : StdMap V) → Above k m → find k m ≡ none
  unfolding find
  find-Above k [] u = refl
  find-Above k ((j, w) ∷ m) u = ground (arith, find-Above k m)

  pub find-insert :
      (k j : ℕ) (v : V) (m : StdMap V)
      → IsOrdered m
      → find j (insert k v m)
        ≡ (if k == j then elim (find k m) [ none ↦ some v | some w ↦ some w ] else find j m)
  unfolding find insert
  find-insert k j v [] o = refl
  find-insert k j v ((i, w) ∷ m) o =
      ground (arith, find-insert k j v m o.1, find-Above k m, Above-mono {a = k} {b = i} m)

  pub find-erase :
      (k j : ℕ) (m : StdMap V)
      → IsOrdered m
      → find j (erase k m) ≡ (if k == j then none else find j m)
  unfolding find erase
  find-erase k j [] o = ground arith
  find-erase k j ((i, w) ∷ m) o = ground (arith, find-erase k j m o.1, find-Above k m)

  pub find-assign :
      (k j : ℕ) (v : V) (m : StdMap V)
      → find j (assign k v m)
        ≡ (if k == j then elim (find k m) [ none ↦ none | some w ↦ some v ] else find j m)
  unfolding find assign
  find-assign k j v [] = ground arith
  find-assign k j v ((i, w) ∷ m) = ground (arith, find-assign k j v m)

  pub keys-assign : (k : ℕ) (v : V) (m : StdMap V) → keys (assign k v m) ≡ keys m
  unfolding assign
  keys-assign k v [] = refl
  keys-assign k v ((j, w) ∷ m) = ground (arith, keys-assign k v m)

  pub Above-assign : (b k : ℕ) (v : V) (m : StdMap V) → Above b m → Above b (assign k v m)
  unfolding assign
  Above-assign b k v [] u = tt
  Above-assign b k v ((j, w) ∷ m) u = ground (arith, Above-assign b k v m u.1)

  pub assign-IsOrdered : (k : ℕ) (v : V) (m : StdMap V) → IsOrdered m → IsOrdered (assign k v m)
  unfolding assign
  assign-IsOrdered k v [] o = tt
  assign-IsOrdered k v ((j, w) ∷ m) o =
      ground (arith, assign-IsOrdered k v m o.1, Above-assign j k v m o.0)
