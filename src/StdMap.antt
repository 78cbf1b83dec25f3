-- ===== src/StdMap.antt =====
-- `std::map` with keys of type int, as the list of its entries in the order of iteration.
pub mod Laws
pub mod Entries
use teachserver.Base.{ℕ, Option, none, some, List, [], ◌∷◌, ltb, ◌==◌, if◌then◌else◌}

abbrev pub StdMap {ℓ} : Type ℓ → Type ℓ
StdMap V = List (ℕ × V)

module _ {ℓ} {V : Type ℓ} where
  unfoldable pub find : ℕ → StdMap V → Option V
  find k [] = none
  find k ((j, v) ∷ m) = if j == k then some v else find k m

  -- An entry that is there already stays.
  unfoldable pub insert : ℕ → V → StdMap V → StdMap V
  insert k v [] = (k, v) ∷ []
  insert k v ((j, w) ∷ m) =
      if j == k then (j, w) ∷ m else if ltb k j then (k, v) ∷ (j, w) ∷ m else (j, w) ∷ insert k v m

  unfoldable pub erase : ℕ → StdMap V → StdMap V
  erase k [] = []
  erase k ((j, w) ∷ m) = if j == k then m else (j, w) ∷ erase k m

  -- A write through the pointer or iterator that `find` gave: nothing where the key is missing.
  unfoldable pub assign : ℕ → V → StdMap V → StdMap V
  assign k v [] = []
  assign k v ((j, w) ∷ m) = if j == k then (j, v) ∷ m else (j, w) ∷ assign k v m

  abbrev pub keys : StdMap V → List ℕ
  keys [] = []
  keys ((j, v) ∷ m) = j ∷ keys m
