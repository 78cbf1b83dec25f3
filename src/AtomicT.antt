-- ===== src/AtomicT.antt =====
-- AtomicT.h: a counter behind a mutex, for the type int as its 32 bits. The mutex makes each operation
-- one step: the result, and the value after it.
pub mod Count
use teachserver.Base.{
  ℕ, ◌+◌, ◌-◌, ◌%◌, Bool, true, false, List, [], ◌∷◌, ◌==◌, ltb, leb, if◌then◌else◌,
}

unfoldable pub add_assign : ℕ → ℕ → ℕ × ℕ
add_assign a v = let v' = (v + a) % 4294967296 in (v', v')

unfoldable pub sub_assign : ℕ → ℕ → ℕ × ℕ
sub_assign a v = let v' = (v + 4294967296 - a % 4294967296) % 4294967296 in (v', v')

unfoldable pub pre_increment : ℕ → ℕ × ℕ
pre_increment v = let v' = (v + 1) % 4294967296 in (v', v')

unfoldable pub post_increment : ℕ → ℕ × ℕ
post_increment v = (v, (v + 1) % 4294967296)

unfoldable pub pre_decrement : ℕ → ℕ × ℕ
pre_decrement v = let v' = (v + 4294967295) % 4294967296 in (v', v')

unfoldable pub post_decrement : ℕ → ℕ × ℕ
post_decrement v = (v, (v + 4294967295) % 4294967296)

unfoldable pub assign : ℕ → ℕ → ℕ
assign a v = a

-- The order of the ints: the upper half of the bit patterns is below the lower.
abbrev order : ℕ → ℕ
order v = (v + 2147483648) % 4294967296

unfoldable pub equals : ℕ → ℕ → Bool
equals a v = v == a

unfoldable pub differs : ℕ → ℕ → Bool
differs a v = if v == a then false else true

unfoldable pub is_above : ℕ → ℕ → Bool
is_above a v = ltb (order a) (order v)

unfoldable pub is_at_least : ℕ → ℕ → Bool
is_at_least a v = leb (order a) (order v)

unfoldable pub is_below : ℕ → ℕ → Bool
is_below a v = ltb (order v) (order a)

unfoldable pub is_at_most : ℕ → ℕ → Bool
is_at_most a v = leb (order v) (order a)

-- The operations that change the value, without their results.
pub data AtomicOp : Type 0 where
  adds subtracts : ℕ → AtomicOp
  increments decrements : AtomicOp

unfoldable pub apply : AtomicOp → ℕ → ℕ
unfolding add_assign sub_assign post_increment post_decrement
apply (adds a) v = (add_assign a v).1
apply (subtracts a) v = (sub_assign a v).1
apply increments v = (post_increment v).1
apply decrements v = (post_decrement v).1

unfoldable pub apply_all : List AtomicOp → ℕ → ℕ
unfolding apply
apply_all [] v = v
apply_all (o ∷ ops) v = apply_all ops (apply o v)
