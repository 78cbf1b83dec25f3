-- ===== src/House/Order.antt =====
-- content/makehouse.cpp: moving a picture in the layers, where the compiler evaluates `iter--` first.
use teachserver.Base.{
  ℕ, zero, suc, ◌+◌, ◌<◌, ◌≡◌, refl, ap, ◌∙◌, true, none, some, List, [], ◌∷◌, ◌++◌, arith, count,
  length, length-append, append-nil, append_assoc,
}
use mathlib.Core.List.{reverse, reverse-cons, reverse-append, reverse-reverse}
use teachserver.House.{MakeHouse}
use teachserver.House.Layers.{
  Cursor, seek, swap_up, up_loop, down_loop, rounds, layer_up, layer_down,
}

seek_found :
    (id : ℕ) (before ws zs : List ℕ)
    → count id ws ≡ 0
    → seek id before (ws ++ id ∷ zs) ≡ (reverse ws ++ before, id ∷ zs)
unfolding seek
seek_found id before [] zs h = ground arith
seek_found id before (w ∷ ws) zs h = ground (
  arith,
  seek_found id (w ∷ before) ws zs,
  reverse-cons w ws,
  append_assoc (reverse ws) (w ∷ []) before,
)

up_loop_moves :
    (i n : ℕ) (bs before zs : List ℕ)
    → up_loop true (length bs) i (bs ++ before) (n ∷ zs)
      ≡ (i + length bs, (before, n ∷ reverse bs ++ zs))
unfolding up_loop swap_up
up_loop_moves i n [] before zs = ground arith
up_loop_moves i n (b ∷ bs) before zs = ground (
  arith,
  up_loop_moves (i + 1) n bs before (b ∷ zs),
  reverse-cons b bs,
  append_assoc (reverse bs) (b ∷ []) zs,
)

length-reverse : (xs : List ℕ) → length (reverse xs) ≡ length xs
length-reverse [] = refl
length-reverse (x ∷ xs) =
    ground
      (arith, ap length (reverse-cons x xs), length-append (reverse xs) (x ∷ []), length-reverse xs)

up_loop_at :
    (k n : ℕ) (xs ys zs : List ℕ)
    → k ≡ length ys
    → up_loop true k 0 (reverse (xs ++ ys)) (n ∷ zs) ≡ (k, (reverse xs, n ∷ ys ++ zs))
up_loop_at k n xs ys zs e =
    let moved = up_loop_moves 0 n (reverse ys) (reverse xs) zs in
    ground (arith, moved, reverse-append xs ys, reverse-reverse ys, length-reverse ys)

layer_up_run :
    (h : MakeHouse) (id places n i : ℕ) (before after : List ℕ) (c : Cursor)
    → places < 2147483648
    → seek id [] h.layer_list ≡ (before, n ∷ after)
    → up_loop true places 0 before (n ∷ after) ≡ (i, c)
    → layer_up true h id places ≡ (record h { layer_list = reverse c.0 ++ c.1 }, some i)
unfolding layer_up rounds
layer_up_run h id places n i before after c small found moved = ground arith

-- Where the compiler evaluates `iter--` first: a picture that stands once, with `ys` right below
-- it, and is moved up by as many places as `ys` has, fewer than 2^31, passes all of `ys` and
-- nothing else; the pictures before `ys` and behind it keep their order, and the result is the
-- number of places.
pub layer_up-passes :
    (h : MakeHouse) (id : ℕ) (xs ys zs : List ℕ)
    → h.layer_list ≡ (xs ++ ys) ++ id ∷ zs
    → count id (xs ++ ys) ≡ 0
    → length ys < 2147483648
    → layer_up true h id (length ys)
      ≡ (record h { layer_list = xs ++ (id ∷ (ys ++ zs)) }, some (length ys))
layer_up-passes h id xs ys zs e new small =
    let found =
      ap (seek id []) e
      ∙ seek_found id [] (xs ++ ys) zs new
      ∙ ap (λ (b : List ℕ). (b, id ∷ zs)) (append-nil (reverse (xs ++ ys))) in
    let moved = up_loop_at (length ys) id xs ys zs refl in
    let run = layer_up_run h id (length ys) id (length ys) _ zs _ small found moved in
    cc (run, reverse-reverse xs)

-- Where the compiler evaluates `iter++` first: the picture at the end of the layers, which stands
-- once, cannot be moved down by any positive count of places: the loop reads the end of the list.
pub layer_down-faults :
    (h : MakeHouse) (id places : ℕ) (xs : List ℕ)
    → h.layer_list ≡ xs ++ id ∷ []
    → count id xs ≡ 0
    → 0 < places
    → places < 2147483648
    → layer_down true h id places ≡ none
unfolding layer_down rounds down_loop
layer_down-faults h id zero xs e new pos small = absurd (omega arith)
layer_down-faults h id (suc k) xs e new pos small = ground (arith, e, seek_found id [] xs [] new)
