-- ===== src/Layout.antt =====
-- The packed structures of protocol.h as lists of fields, and `strcpy` into their arrays.
pub mod Structs
pub mod Reads
use teachserver.Base.{
  ℕ, ◌+◌, Option, none, some, List, [], ◌∷◌, ltb, if◌then◌else◌, length, update, put_u32,
}

pub data Field : Type 0 where
  -- `char[n]`, filled by `strcpy`
  text : ℕ → List ℕ → Field
  -- an int
  word : ℕ → Field
  -- `char[n]` that the code leaves as it is
  skip : ℕ → Field

abbrev pub width : Field → ℕ
width (text n cs) = n
width (word v) = 4
width (skip n) = n

-- The bytes of a text and its NUL at an offset.
unfoldable pub put_text : (ℕ → ℕ) → ℕ → List ℕ → ℕ → ℕ
put_text m o [] = update m o 0
put_text m o (c ∷ cs) = put_text (update m o c) (o + 1) cs

-- A text that does not fit its array is a fault.
unfoldable pub put_fields : (ℕ → ℕ) → ℕ → List Field → Option (ℕ → ℕ)
unfolding put_text
put_fields m o [] = some m
put_fields m o (text n cs ∷ fs) =
    let rest = put_fields (put_text m o cs) (o + n) fs in if ltb (length cs) n then rest else none
put_fields m o (word v ∷ fs) = put_fields (put_u32 m o v) (o + 4) fs
put_fields m o (skip n ∷ fs) = put_fields m (o + n) fs

-- sizeof the structure.
unfoldable pub size_of : List Field → ℕ
size_of [] = 0
size_of (f ∷ fs) = width f + size_of fs
