-- ===== src/Room/Score.antt =====
-- content/room.cpp: CRoom::puzzle_end collects the students' times and sends them to the whiteboard.
use teachserver.Base.{
  ℕ, zero, suc, ◌+◌, ◌-◌, ◌%◌, Option, none, some, List, [], ◌∷◌, ◌++◌, ◌>>=◌, ◌==◌, ltb,
  if◌then◌else◌, length,
}
use teachserver.StdMap
use teachserver.StdMap.{StdMap}
use teachserver.Protocol.{code, msg_head_len}
use teachserver.Protocol.Command.{st_puzzle_end_game}
use teachserver.Single.{
  Single, null, set_fd, set_size, set_len, set_type, write_data, pool_malloc, send_enqueue,
}
use teachserver.Student.{Student}
use teachserver.Room.{Room, Puzzle}
use teachserver.Room.Games.{end}

-- The 64 bits of a `long` that `printf` is given, and the text that it makes of them by `%ld`, which is
-- a parameter.
abbrev pub Printed : Type 0
Printed = ℕ → List ℕ

-- `m_end_time - m_start_time`
unfoldable pub elapsed : Puzzle → ℕ
elapsed z = (z.end_time + 18446744073709551616 - z.start_time) % 18446744073709551616

-- A `std::string` as `c_str ()` shows it to C.
unfoldable pub until_nul : List ℕ → List ℕ
until_nul [] = []
until_nul (c ∷ cs) = let rest = until_nul cs in if c == 0 then [] else c ∷ rest

-- `snprintf (tmp, n + 1, …)` cuts the text.
unfoldable pub first_bytes : ℕ → List ℕ → List ℕ
first_bytes zero cs = []
first_bytes (suc n) [] = []
first_bytes (suc n) (c ∷ cs) = c ∷ first_bytes n cs

-- "%s:%ld,"
unfoldable pub score_entry : Printed → Student → Puzzle → List ℕ
unfolding first_bytes until_nul elapsed
score_entry ld student z =
    first_bytes 63 (until_nul student.name ++ 58 ∷ [] ++ ld (elapsed z) ++ 44 ∷ [])

-- `m_student_map[fd]`: NULL is inserted for a student who is gone.
unfoldable pub subscript : ℕ → StdMap (Option Student) → StdMap (Option Student)
subscript fd students = elim (StdMap.find fd students) [
  | none ↦ StdMap.insert fd none students
  | some x ↦ students
]

unfoldable pub append_score : Printed → List ℕ → Option (Option Student) → Puzzle → List ℕ
unfolding score_entry
append_score ld text none z = text
append_score ld text (some none) z = text
append_score ld text (some (some student)) z = text ++ score_entry ld student z

-- The loop over the puzzles: the two maps and the text so far. A NULL puzzle is a fault, and so is a
-- text of more than 1023 bytes.
unfoldable pub end_all :
    Printed
    → ℕ
    → StdMap (Option Puzzle)
    → StdMap (Option Student)
    → List ℕ
    → Option (StdMap (Option Puzzle) × StdMap (Option Student) × List ℕ)
unfolding end subscript append_score
end_all ld now [] students text = some ([], students, text)
end_all ld now ((fd, none) ∷ m) students text = none
end_all ld now ((fd, some z) ∷ m) students text =
    let z' = end now z in
    let text' = append_score ld text (StdMap.find fd students) z' in
    let rest = end_all ld now m (subscript fd students) text' in
    if ltb 1023 (length text') then none else rest >>= λ r. some ((fd, some z') ∷ r.0, r.1, r.2)

-- A text in memory, with zeros behind it.
unfoldable pub as_bytes : List ℕ → ℕ → ℕ
as_bytes [] i = 0
as_bytes (c ∷ cs) zero = c
as_bytes (c ∷ cs) (suc i) = as_bytes cs i

unfoldable pub puzzle_end : Printed → ℕ → Room → Single → Option (Room × Single)
unfolding end_all as_bytes pool_malloc set_fd set_size set_len set_type write_data send_enqueue code
puzzle_end ld now r s = do
  (puzzles, students, text) ← end_all ld now r.puzzle_map r.student_map []
  let r' = record r { puzzle_map = puzzles; student_map = students }
  if r.white_fd == 0 then some (r', s) else do
    let (p, s1) = pool_malloc s
    if p == null then none else do
      let len = msg_head_len + 1024
      let s2 = set_type p (code st_puzzle_end_game) (set_len p len (set_size p len s1))
      s3 ← write_data p 1024 (as_bytes text) (set_fd p r.white_fd s2)
      some (r', send_enqueue p s3)
