-- ===== src/House/Layers.antt =====
-- content/makehouse.cpp: CMakeHouse::layer_up and layer_down. An iterator into the layer list is a
-- pair of lists: what stands before it, nearest first, and what stands from it on.
-- `std::swap (*iter, *(iter--))` depends on the order in which the compiler evaluates the two
-- arguments, so that order is the argument `right_first`.
use teachserver.Base.{
  ℕ, zero, suc, ◌+◌, Bool, true, false, Option, none, some, List, [], ◌∷◌, ◌++◌, ◌>>=◌, ◌==◌, ltb,
  if◌then◌else◌,
}
use mathlib.Core.List.{reverse}
use teachserver.House.{MakeHouse}

abbrev pub Cursor : Type 0
Cursor = List ℕ × List ℕ

-- get_iterator_by_node_id: the search goes on from what was passed over.
unfoldable pub seek : ℕ → List ℕ → List ℕ → Cursor
seek node_id before [] = (before, [])
seek node_id before (n ∷ rest) =
    if n == node_id then (before, n ∷ rest) else seek node_id (n ∷ before) rest

-- One round of each loop: none is the read of `*end ()`.
unfoldable pub swap_up : Bool → ℕ → List ℕ → List ℕ → Cursor
swap_up right_first b before [] = (before, b ∷ [])
swap_up true b before (a ∷ after) = (before, a ∷ b ∷ after)
swap_up false b before (a ∷ after) = (before, b ∷ a ∷ after)

unfoldable pub swap_down : Bool → List ℕ → ℕ → List ℕ → Option Cursor
swap_down true before a [] = none
swap_down true before a (c ∷ after) = some (c ∷ before, a ∷ after)
swap_down false before a after = some (a ∷ before, after)

-- The loops: the rounds left, the rounds done, and the cursor.
unfoldable pub up_loop : Bool → ℕ → ℕ → List ℕ → List ℕ → ℕ × Cursor
unfolding swap_up
up_loop right_first zero i before after = (i, (before, after))
up_loop right_first (suc k) i [] after = (i, ([], after))
up_loop right_first (suc k) i (b ∷ before) after =
    let c = swap_up right_first b before after in up_loop right_first k (i + 1) before c.1

unfoldable pub down_loop : Bool → ℕ → ℕ → List ℕ → List ℕ → Option (ℕ × Cursor)
unfolding swap_down
down_loop right_first zero i before after = some (i, (before, after))
down_loop right_first (suc k) i before [] = some (i, (before, []))
down_loop true (suc k) i before (a ∷ []) = none
down_loop true (suc k) i before (a ∷ c ∷ after) = down_loop true k (i + 1) (c ∷ before) (a ∷ after)
down_loop false (suc k) i before (a ∷ after) = down_loop false k (i + 1) (a ∷ before) after

abbrev pub whole : Cursor → List ℕ
whole c = reverse c.0 ++ c.1

-- The rounds of `for (i = 0; i < count; i++)`, for the bit pattern of the int `count`.
unfoldable pub rounds : ℕ → ℕ
rounds count = if ltb count 2147483648 then count else 0

abbrev with_layers : MakeHouse → ℕ × Cursor → MakeHouse × Option ℕ
with_layers h (i, c) = (record h { layer_list = whole c }, some i)

-- The result none is -1: no such node.
unfoldable pub layer_up : Bool → MakeHouse → ℕ → ℕ → MakeHouse × Option ℕ
unfolding seek up_loop rounds
layer_up right_first h node_id count =
    let c = seek node_id [] h.layer_list in
    elim c.1 [
      | [] ↦ (h, none)
      | n ∷ after ↦ with_layers h (up_loop right_first (rounds count) 0 c.0 (n ∷ after))
    ]

unfoldable pub layer_down : Bool → MakeHouse → ℕ → ℕ → Option (MakeHouse × Option ℕ)
unfolding seek down_loop rounds
layer_down right_first h node_id count =
    let c = seek node_id [] h.layer_list in
    elim c.1 [
      | [] ↦ some (h, none)
      | n ∷ after ↦
          down_loop right_first (rounds count) 0 c.0 (n ∷ after) >>= λ r. some (with_layers h r)
    ]
