-- ===== src/Layout/Reads.antt =====
-- protocol.h: what is filled into a structure is read from it again.
use teachserver.Base.{
  ℕ, zero, suc, ◌+◌, ◌<◌, ◌≡◌, ◌≢◌, ◌∙◌, refl, some, List, [], ◌∷◌, arith, All, length, update,
  get_u32, put_u32, get_u32-put_u32,
}
use teachserver.Layout.{Field, text, word, skip, put_text, put_fields, size_of}
use teachserver.Server.{c_str}

-- The memory holds the fields, one behind the other: each text as a C string that ends within its
-- array, each int as its four bytes.
abbrev pub Holds : (ℕ → ℕ) → ℕ → List Field → Type 0
Holds m o [] = Unit
Holds m o (text n cs ∷ fs) = (c_str m o n ≡ some cs) × Holds m (o + n) fs
Holds m o (word v ∷ fs) = (get_u32 m o ≡ v) × Holds m (o + 4) fs
Holds m o (skip n ∷ fs) = Holds m (o + n) fs

-- No text has a NUL in it, and each int takes four bytes.
abbrev pub IsClean : Field → Type 0
IsClean (text n cs) = All (λ c. c ≢ 0) cs
IsClean (word v) = v < 4294967296
IsClean (skip n) = Unit

-- A text of a structure starts where the one before ends, so that what is below stays.
below-put_text : (m : ℕ → ℕ) (o i : ℕ) (cs : List ℕ) → i < o → put_text m o cs i ≡ m i
unfolding put_text
below-put_text m o i [] h = ground arith
below-put_text m o i (c ∷ cs) h = ground (arith, below-put_text (update m o c) (o + 1) i cs)

below-put_u32 : (m : ℕ → ℕ) (o v i : ℕ) → i < o → put_u32 m o v i ≡ m i
unfolding put_u32
below-put_u32 m o v i h = ground arith

below-put_fields :
    (m m' : ℕ → ℕ) (o i : ℕ) (fs : List Field) → put_fields m o fs ≡ some m' → i < o → m' i ≡ m i
unfolding put_fields
below-put_fields m m' o i [] e h = ground arith
below-put_fields m m' o i (text n cs ∷ fs) e h =
    ground (arith, below-put_fields (put_text m o cs) m' (o + n) i fs, below-put_text m o i cs)
below-put_fields m m' o i (word v ∷ fs) e h =
    ground (arith, below-put_fields (put_u32 m o v) m' (o + 4) i fs, below-put_u32 m o v i h)
below-put_fields m m' o i (skip n ∷ fs) e h = below-put_fields m m' (o + n) i fs e (omega arith)

pub c_str-put_text :
    (m : ℕ → ℕ) (o n : ℕ) (cs : List ℕ)
    → length cs < n
    → All (λ c. c ≢ 0) cs
    → c_str (put_text m o cs) o n ≡ some cs
unfolding put_text c_str
c_str-put_text m o zero [] h us = absurd (omega arith)
c_str-put_text m o zero (c ∷ cs) h us = absurd (omega arith)
c_str-put_text m o (suc n) [] h us = ground arith
c_str-put_text m o (suc n) (c ∷ cs) h us =
    let first = below-put_text (update m o c) (o + 1) o cs (omega arith) in
    let rest = c_str-put_text (update m o c) (o + 1) n cs (omega (arith, h)) us.1 in
    ground (arith, first, rest, us.0)

-- A text and an int are read from their own bytes only.
pub c_str_agree :
    (m m' : ℕ → ℕ) (o n : ℕ) → ((i : ℕ) → i < o + n → m' i ≡ m i) → c_str m' o n ≡ c_str m o n
unfolding c_str
c_str_agree m m' o zero h = refl
c_str_agree m m' o (suc n) h =
    let rest = c_str_agree m m' (o + 1) n (λ i lt. h i (omega (arith, lt))) in
    ground (arith, rest, h o (omega arith))

get_u32_agree :
    (m m' : ℕ → ℕ) (o : ℕ) → ((i : ℕ) → i < o + 4 → m' i ≡ m i) → get_u32 m' o ≡ get_u32 m o
unfolding get_u32
get_u32_agree m m' o h = omega (
  arith,
  h o (omega arith),
  h (o + 1) (omega arith),
  h (o + 2) (omega arith),
  h (o + 3) (omega arith),
)

text_fits :
    (m m' : ℕ → ℕ) (o n : ℕ) (cs : List ℕ) (fs : List Field)
    → put_fields m o (text n cs ∷ fs) ≡ some m'
    → (length cs < n) × (put_fields (put_text m o cs) (o + n) fs ≡ some m')
unfolding put_fields
text_fits m m' o n cs fs e = ground arith

-- A structure that is filled field by field without a fault holds its fields: each text that was
-- copied, without a NUL in it, is read back as a C string from its array, and each int of four
-- bytes from its place, whatever the memory was before.
pub put_fields-Holds :
    (m m' : ℕ → ℕ) (o : ℕ) (fs : List Field)
    → All IsClean fs
    → put_fields m o fs ≡ some m'
    → Holds m' o fs
unfolding put_fields
put_fields-Holds m m' o [] us e = tt
put_fields-Holds m m' o (skip n ∷ fs) us e = put_fields-Holds m m' (o + n) fs us.1 e
put_fields-Holds m m' o (word v ∷ fs) us e = (
  get_u32_agree (put_u32 m o v) m' o (λ i lt. below-put_fields (put_u32 m o v) m' (o + 4) i fs e lt)
      ∙ get_u32-put_u32 m o v
      ∙ omega (arith, us.0),
  put_fields-Holds (put_u32 m o v) m' (o + 4) fs us.1 e,
)
put_fields-Holds m m' o (text n cs ∷ fs) us e =
    let (fits, e') = text_fits m m' o n cs fs e in
    (
      c_str_agree (put_text m o cs) m' o n
            (λ i lt. below-put_fields (put_text m o cs) m' (o + n) i fs e' lt)
          ∙ c_str-put_text m o n cs fits us.0,
      put_fields-Holds (put_text m o cs) m' (o + n) fs us.1 e',
    )

-- Each text ends within its array and has no NUL in it, and each int takes four bytes.
abbrev pub IsFit : Field → Type 0
IsFit (text n cs) = (length cs < n) × All (λ c. c ≢ 0) cs
IsFit (word v) = v < 4294967296
IsFit (skip n) = Unit

pub IsFit-IsClean : (fs : List Field) → All IsFit fs → All IsClean fs
IsFit-IsClean [] us = tt
IsFit-IsClean (text n cs ∷ fs) us = (us.0.1, IsFit-IsClean fs us.1)
IsFit-IsClean (word v ∷ fs) us = (us.0, IsFit-IsClean fs us.1)
IsFit-IsClean (skip n ∷ fs) us = (tt, IsFit-IsClean fs us.1)

-- Fields that fit are filled in without a fault.
pub put_fields_fit :
    (m : ℕ → ℕ) (o : ℕ) (fs : List Field)
    → All IsFit fs
    → (m' : ℕ → ℕ) × (put_fields m o fs ≡ some m')
unfolding put_fields
put_fields_fit m o [] us = (m, refl)
put_fields_fit m o (text n cs ∷ fs) us =
    let (m', e) = put_fields_fit (put_text m o cs) (o + n) fs us.1 in
    (m', ground (arith, us.0.0, e))
put_fields_fit m o (word v ∷ fs) us = put_fields_fit (put_u32 m o v) (o + 4) fs us.1
put_fields_fit m o (skip n ∷ fs) us = put_fields_fit m (o + n) fs us.1

-- The fields are read from their own bytes only.
pub Holds-agree :
    (m m' : ℕ → ℕ) (o : ℕ) (fs : List Field)
    → ((i : ℕ) → i < o + size_of fs → m' i ≡ m i)
    → Holds m o fs
    → Holds m' o fs
unfolding size_of
Holds-agree m m' o [] h us = tt
Holds-agree m m' o (text n cs ∷ fs) h us = (
  c_str_agree m m' o n (λ i lt. h i (omega (arith, lt))) ∙ us.0,
  Holds-agree m m' (o + n) fs (λ i lt. h i (omega (arith, lt))) us.1,
)
Holds-agree m m' o (word v ∷ fs) h us = (
  get_u32_agree m m' o (λ i lt. h i (omega (arith, lt))) ∙ us.0,
  Holds-agree m m' (o + 4) fs (λ i lt. h i (omega (arith, lt))) us.1,
)
Holds-agree m m' o (skip n ∷ fs) h us =
    Holds-agree m m' (o + n) fs (λ i lt. h i (omega (arith, lt))) us
