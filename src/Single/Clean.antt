-- ===== src/Single/Clean.antt =====
-- Buffers that lie apart from each other: a pool whose entries are usable.
use teachserver.Base.{ℕ, ◌≡◌, ◌≢◌, ◌∙◌, List, [], ◌∷◌, arith}
use teachserver.Single.{Buf, null}

-- A buffer differs from every entry of a list, and so does its memory.
abbrev pub IsApart : (ℕ → Buf) → ℕ → List ℕ → Type 0
IsApart bufs q [] = Unit {0}
IsApart bufs q (r ∷ rs) = (q ≢ r) × ((bufs q).ptr ≢ (bufs r).ptr) × IsApart bufs q rs

-- No entry is NULL, each has 5120 bytes, and they are apart from one another.
abbrev pub IsClean : (ℕ → Buf) → List ℕ → Type 0
IsClean bufs [] = Unit {0}
IsClean bufs (q ∷ qs) = (q ≢ null) × ((bufs q).size ≡ 5120) × IsApart bufs q qs × IsClean bufs qs

-- Two states of the objects agree on where the memory is and on its size.
pub record SameMemory (a b : ℕ → Buf) : Type 0 where
  pub ptrs : (q : ℕ) → (a q).ptr ≡ (b q).ptr
  pub sizes : (q : ℕ) → (a q).size ≡ (b q).size

pub SameMemory-trans : {a b c : ℕ → Buf} → SameMemory a b → SameMemory b c → SameMemory a c
SameMemory-trans f g = record {
  ptrs = λ q. f.ptrs q ∙ g.ptrs q;
  sizes = λ q. f.sizes q ∙ g.sizes q;
}

pub IsApart-SameMemory :
    (a b : ℕ → Buf) (q : ℕ) (rs : List ℕ) → SameMemory a b → IsApart a q rs → IsApart b q rs
IsApart-SameMemory a b q [] e h = tt
IsApart-SameMemory a b q (r ∷ rs) e h =
    (h.0, ground (arith, e.ptrs q, e.ptrs r, h.1), IsApart-SameMemory a b q rs e h.2)

pub IsClean-SameMemory :
    (a b : ℕ → Buf) (qs : List ℕ) → SameMemory a b → IsClean a qs → IsClean b qs
IsClean-SameMemory a b [] e h = tt
IsClean-SameMemory a b (q ∷ qs) e h = (
  h.0,
  ground (arith, e.sizes q, h.1),
  IsApart-SameMemory a b q qs e h.2,
  IsClean-SameMemory a b qs e h.3,
)
