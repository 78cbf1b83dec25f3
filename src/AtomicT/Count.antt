-- ===== src/AtomicT/Count.antt =====
-- AtomicT.h: the order in which threads change the counter does not matter.
use teachserver.Base.{ℕ, ◌+◌, ◌-◌, ◌%◌, ◌≡◌, List, [], ◌∷◌, arith, refl}
use teachserver.AtomicT.{
  AtomicOp, adds, subtracts, increments, decrements, apply, apply_all, add_assign, sub_assign,
  post_increment, post_decrement,
}

-- What the operations add, and what they take away.
abbrev pub added : List AtomicOp → ℕ
added [] = 0
added (adds a ∷ ops) = a + added ops
added (subtracts a ∷ ops) = added ops
added (increments ∷ ops) = 1 + added ops
added (decrements ∷ ops) = added ops

abbrev pub removed : List AtomicOp → ℕ
removed [] = 0
removed (adds a ∷ ops) = removed ops
removed (subtracts a ∷ ops) = a + removed ops
removed (increments ∷ ops) = removed ops
removed (decrements ∷ ops) = 1 + removed ops

-- After any operations in any order, the counter is the sum of its first value and all that was added,
-- less all that was taken away, modulo 2^32.
pub apply_all-sums :
    (ops : List AtomicOp) (v : ℕ)
    → (apply_all ops v + removed ops) % 4294967296 ≡ (v + added ops) % 4294967296
unfolding apply_all apply add_assign sub_assign post_increment post_decrement
apply_all-sums [] v = refl
apply_all-sums (adds a ∷ ops) v = omega (arith, apply_all-sums ops ((v + a) % 4294967296))
apply_all-sums (subtracts a ∷ ops) v =
    omega (arith, apply_all-sums ops ((v + 4294967296 - a % 4294967296) % 4294967296))
apply_all-sums (increments ∷ ops) v = omega (arith, apply_all-sums ops ((v + 1) % 4294967296))
apply_all-sums (decrements ∷ ops) v =
    omega (arith, apply_all-sums ops ((v + 4294967295) % 4294967296))
