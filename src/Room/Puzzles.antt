-- ===== src/Room/Puzzles.antt =====
-- content/room.cpp and puzzle.cpp: the end of the puzzle game and the text with the times.
use teachserver.Base.{ℕ, ◌≡◌, refl, Option, none, some, List, [], ◌∷◌, arith}
use teachserver.StdMap
use teachserver.StdMap.{StdMap}
use teachserver.StdMap.Entries.{find-insert_new}
use teachserver.Single.{Single}
use teachserver.Student.{Student}
use teachserver.Room.{Room, Puzzle}
use teachserver.Room.Games.{end, end_puzzle_by_fd}
use teachserver.Room.Score.{Printed, subscript, append_score, end_all, puzzle_end}

-- A NULL puzzle anywhere in the map faults.
end_all_faults :
    (ld : Printed) (now fd : ℕ) (m : StdMap (Option Puzzle)) (students : StdMap (Option Student))
    (text : List ℕ)
    → StdMap.find fd m ≡ some none
    → end_all ld now m students text ≡ none
unfolding end_all StdMap.find
end_all_faults ld now fd [] students text h = absurd (ground arith)
end_all_faults ld now fd ((k, none) ∷ m) students text h = refl
end_all_faults ld now fd ((k, some z) ∷ m) students text h =
    let rest =
      end_all_faults ld now fd m (subscript k students)
        (append_score ld text (StdMap.find k students) (end now z)) (ground arith) in
    ground (arith, rest)

-- A client with no puzzle in the room who ends one leaves a NULL there, which the teacher's end of
-- the game then reads, at any time.
pub puzzle_end-end_puzzle_by_fd :
    (ld : Printed) (now later fd : ℕ) (r : Room) (s : Single)
    → StdMap.find fd r.puzzle_map ≡ none
    → puzzle_end ld later (end_puzzle_by_fd now fd r) s ≡ none
unfolding puzzle_end end_puzzle_by_fd
puzzle_end-end_puzzle_by_fd ld now later fd r s h = ground (
  arith,
  end_all_faults ld later fd (StdMap.insert fd none r.puzzle_map) r.student_map [],
  find-insert_new fd none r.puzzle_map,
)
