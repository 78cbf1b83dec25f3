-- ===== src/Base/Memory.antt =====
-- Memory as a function of the offset: an update of one cell, and little-endian 32-bit words.
use Prim.Native.Nat.{ℕ, zero, suc, ◌+◌, ◌*◌, ◌/◌, ◌%◌, ◌≤◌}
use mathlib.Core.Path.{◌≡◌, ap, sym, ◌∙◌}
use mathlib.Core.List.{List, [], ◌∷◌, ◌++◌}
use mathlib.Core.Logic.{◌⊎◌}
use native.Mathlib.Omega.{arith}
use teachserver.Base.Tests.{◌==◌, ltb, if◌then◌else◌}

module _ {ℓ} {A : Type ℓ} where
  abbrev pub update : (ℕ → A) → ℕ → A → ℕ → A
  update f k v j = if j == k then v else f j

-- The 32-bit word at an offset.
unfoldable pub get_u32 : (ℕ → ℕ) → ℕ → ℕ
get_u32 m o = m o + 256 * m (o + 1) + 65536 * m (o + 2) + 16777216 * m (o + 3)

unfoldable pub put_u32 : (ℕ → ℕ) → ℕ → ℕ → ℕ → ℕ
put_u32 m o v i =
    if i == o
    then v % 256
    else if i == o + 1
    then v / 256 % 256
    else if i == o + 2
    then v / 65536 % 256
    else if i == o + 3
    then v / 16777216 % 256
    else m i

-- The n bytes from the offset on.
unfoldable pub memory_bytes : (ℕ → ℕ) → ℕ → ℕ → List ℕ
memory_bytes m o zero = []
memory_bytes m o (suc n) = m o ∷ memory_bytes m (o + 1) n

pub memory_bytes_join :
    (m : ℕ → ℕ) (o n k : ℕ)
    → memory_bytes m o n ++ memory_bytes m (o + n) k ≡ memory_bytes m o (n + k)
unfolding memory_bytes
memory_bytes_join m o zero k = ground arith
memory_bytes_join m o (suc n) k =
    let further : (o + 1 + n ≡ o + suc n) = omega arith in
    let longer : (suc (n + k) ≡ suc n + k) = omega arith in
    ap (λ i. m o ∷ (memory_bytes m (o + 1) n ++ memory_bytes m i k)) (sym further)
    ∙ ap (λ xs. m o ∷ xs) (memory_bytes_join m (o + 1) n k)
    ∙ ap (memory_bytes m o) longer

-- `memcpy` of the first n bytes.
unfoldable pub copy_bytes : ℕ → (ℕ → ℕ) → (ℕ → ℕ) → ℕ → ℕ
copy_bytes n dst src i = if ltb i n then src i else dst i

pub get_u32-put_u32 : (m : ℕ → ℕ) (o v : ℕ) → get_u32 (put_u32 m o v) o ≡ v % 4294967296
unfolding get_u32 put_u32
get_u32-put_u32 m o v = ground arith

pub get_u32-put_u32_ne :
    (m : ℕ → ℕ) (o p v : ℕ) → (o + 4 ≤ p) ⊎ (p + 4 ≤ o) → get_u32 (put_u32 m o v) p ≡ get_u32 m p
unfolding get_u32 put_u32
get_u32-put_u32_ne m o p v h = ground arith
