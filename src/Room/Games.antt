-- ===== src/Room/Games.antt =====
-- content/room.cpp and puzzle.cpp: the puzzle and the house-building games of a room. `now` is what
-- `time (NULL)` returns.
use teachserver.Base.{ℕ, Option, none, some, List, [], ◌∷◌, ◌==◌, if◌then◌else◌}
use teachserver.StdMap
use teachserver.StdMap.{StdMap}
use teachserver.Student.{Student}
use teachserver.Single.{null}
use teachserver.House.Group.{Group, new_group, add_student_to_group}
use teachserver.Room
use teachserver.Room.{Room, Puzzle}

unfoldable pub new_puzzle : Puzzle
new_puzzle = record { start_time = 0; end_time = 0 }

unfoldable pub start : ℕ → Puzzle → Puzzle
start now z = if z.start_time == 0 then record z { start_time = now } else z

unfoldable pub end : ℕ → Puzzle → Puzzle
end now z = if z.end_time == 0 then record z { end_time = now } else z

unfoldable pub start_all :
    ℕ → StdMap (Option Student) → StdMap (Option Puzzle) → StdMap (Option Puzzle)
unfolding new_puzzle start
start_all now [] puzzles = puzzles
start_all now ((fd, student) ∷ m) puzzles =
    start_all now m (StdMap.insert fd (some (start now new_puzzle)) puzzles)

-- CRoom::puzzle_start: a puzzle that is there already stays.
unfoldable pub puzzle_start : ℕ → Room → Room
unfolding start_all
puzzle_start now r = record r { puzzle_map = start_all now r.student_map r.puzzle_map }

-- CRoom::end_puzzle_by_fd: `m_puzzle_map[fd]` inserts NULL where the key is missing.
unfoldable pub end_puzzle_by_fd : ℕ → ℕ → Room → Room
unfolding end
end_puzzle_by_fd now fd r = elim (StdMap.find fd r.puzzle_map) [
  | none ↦ record r { puzzle_map = StdMap.insert fd none r.puzzle_map }
  | some none ↦ r
  | some (some z) ↦ record r { puzzle_map = StdMap.assign fd (some (end now z)) r.puzzle_map }
]

-- The pointer that a map of students holds.
abbrev pub address : Option Student → ℕ
address none = null
address (some student) = student.addr

unfoldable pub join_all : StdMap (Option Student) → Group → Group
unfolding add_student_to_group
join_all [] g = g
join_all ((fd, student) ∷ m) g = join_all m (add_student_to_group fd (address student) g).0

-- "group1"
abbrev pub group1_name : List ℕ
group1_name = 103 ∷ 114 ∷ 111 ∷ 117 ∷ 112 ∷ 49 ∷ []

unfoldable pub build_house_start : Room → Room
unfolding join_all new_group Room.add_group
build_house_start r = (Room.add_group 1 (some (join_all r.student_map (new_group group1_name))) r).0

-- `erase (iter)` leaves the iterator that the loop then increments invalid.
unfoldable pub build_house_end : Room → Option Room
build_house_end r = elim r.buildhouse_groups [ [] ↦ some r | g ∷ gs ↦ none ]
