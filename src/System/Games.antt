-- ===== src/System/Games.antt =====
-- The handlers that write a room keep its maps in order.
use teachserver.Base.{
  ℕ, ◌≡◌, sym, Option, none, some, List, [], ◌∷◌, arith, Option-cases, inl, inr, Bool,
}
use mathlib.Core.Path.{subst}
use teachserver.StdMap
use teachserver.StdMap.{StdMap}
use teachserver.StdMap.Laws.{IsOrdered, Above, insert-IsOrdered, assign-IsOrdered}
use teachserver.Single.{Single, get_fd}
use teachserver.Student.{Student}
use teachserver.House.Group.{Group}
use teachserver.Room
use teachserver.Room.{Room, Puzzle}
use teachserver.Room.Games
use teachserver.Room.Score
use teachserver.Server.{Server, room_of}
use teachserver.Protocol.{CommandType}
use teachserver.Protocol.Command.{st_puzzle_game_start}
use teachserver.Post
use teachserver.Handler.BuildHouse
use teachserver.Handler.Puzzle
use teachserver.System.Ordered.{IsSound, IsWell, Keeps, get_room_by_fd-IsSound, assign-IsWell}

-- A room with other maps.
with_puzzles-IsSound :
    (k : ℕ) (r : Room) (m : StdMap (Option Puzzle))
    → IsSound k r
    → IsOrdered m
    → IsSound k (record r { puzzle_map = m })
with_puzzles-IsSound k r m u o = record {
  id = u.id;
  students = u.students;
  groups = u.groups;
  puzzles = o;
}

pub with_students-IsSound :
    (k : ℕ) (r : Room) (m : StdMap (Option Student))
    → IsSound k r
    → IsOrdered m
    → IsSound k (record r { student_map = m })
with_students-IsSound k r m u o = record {
  id = u.id;
  students = o;
  groups = u.groups;
  puzzles = u.puzzles;
}

pub with_groups-IsSound :
    (k : ℕ) (r : Room) (m : StdMap Group)
    → IsSound k r
    → IsOrdered m
    → IsSound k (record r { buildhouse_groups = m })
with_groups-IsSound k r m u o = record {
  id = u.id;
  students = u.students;
  groups = o;
  puzzles = u.puzzles;
}

-- The puzzles.
start_all-IsOrdered :
    (now : ℕ) (m : StdMap (Option Student)) (puzzles : StdMap (Option Puzzle))
    → IsOrdered puzzles
    → IsOrdered (Games.start_all now m puzzles)
unfolding Games.start_all
start_all-IsOrdered now [] puzzles o = o
start_all-IsOrdered now ((fd, student) ∷ m) puzzles o =
    start_all-IsOrdered now m _ (insert-IsOrdered fd _ puzzles o)

puzzle_start-IsSound : (now k : ℕ) (r : Room) → IsSound k r → IsSound k (Games.puzzle_start now r)
unfolding Games.puzzle_start
puzzle_start-IsSound now k r u =
    with_puzzles-IsSound k r _ u (start_all-IsOrdered now r.student_map r.puzzle_map u.puzzles)

end_puzzle_by_fd-IsSound :
    (now fd k : ℕ) (r : Room) → IsSound k r → IsSound k (Games.end_puzzle_by_fd now fd r)
unfolding Games.end_puzzle_by_fd
end_puzzle_by_fd-IsSound now fd k r u = elim (Option-cases (StdMap.find fd r.puzzle_map)) [
  | inl e ↦ ground (
    arith,
    with_puzzles-IsSound k r (StdMap.insert fd none r.puzzle_map) u
        (insert-IsOrdered fd none r.puzzle_map u.puzzles),
  )
  | inr (none, e) ↦ ground arith
  | inr (some z, e) ↦ ground (
    arith,
    with_puzzles-IsSound k r (StdMap.assign fd (some (Games.end now z)) r.puzzle_map) u
        (assign-IsOrdered fd (some (Games.end now z)) r.puzzle_map u.puzzles),
  )
]

subscript-IsOrdered :
    (fd : ℕ) (s : StdMap (Option Student)) → IsOrdered s → IsOrdered (Score.subscript fd s)
unfolding Score.subscript
subscript-IsOrdered fd s o = ground (arith, insert-IsOrdered fd none s o)

end_all-Above :
    (ld : Score.Printed) (now b : ℕ) (m m' : StdMap (Option Puzzle))
    (s s' : StdMap (Option Student)) (text text' : List ℕ)
    → Score.end_all ld now m s text ≡ some (m', s', text')
    → Above b m
    → Above b m'
unfolding Score.end_all
end_all-Above ld now b [] m' s s' text text' h o = ground arith
end_all-Above ld now b ((fd, none) ∷ m) m' s s' text text' h o = absurd (ground arith)
end_all-Above ld now b ((fd, some z) ∷ m) m' s s' text text' h o =
    let text1 = Score.append_score ld text (StdMap.find fd s) (Games.end now z) in
    elim (Option-cases (Score.end_all ld now m (Score.subscript fd s) text1)) [
      | inl e ↦ absurd (ground arith)
      | inr ((m1, s1, text2), e) ↦
          ground (arith, end_all-Above ld now b m m1 _ s1 text1 text2 e o.1)
    ]

end_all-IsOrdered :
    (ld : Score.Printed) (now : ℕ) (m m' : StdMap (Option Puzzle)) (s s' : StdMap (Option Student))
    (text text' : List ℕ)
    → IsOrdered m
    → IsOrdered s
    → Score.end_all ld now m s text ≡ some (m', s', text')
    → IsOrdered m' × IsOrdered s'
unfolding Score.end_all
end_all-IsOrdered ld now [] m' s s' text text' o q h = ground arith
end_all-IsOrdered ld now ((fd, none) ∷ m) m' s s' text text' o q h = absurd (ground arith)
end_all-IsOrdered ld now ((fd, some z) ∷ m) m' s s' text text' o q h =
    let text1 = Score.append_score ld text (StdMap.find fd s) (Games.end now z) in
    elim (Option-cases (Score.end_all ld now m (Score.subscript fd s) text1)) [
      | inl e ↦ absurd (ground arith)
      | inr ((m1, s1, text2), e) ↦ ground (
        arith,
        end_all-IsOrdered ld now m m1 _ s1 text1 text2 o.1 (subscript-IsOrdered fd s q) e,
        end_all-Above ld now fd m m1 _ s1 text1 text2 e o.0,
      )
    ]

puzzle_end-IsSound :
    (ld : Score.Printed) (now k : ℕ) (r r' : Room) (s s' : Single)
    → IsSound k r
    → Score.puzzle_end ld now r s ≡ some (r', s')
    → IsSound k r'
unfolding Score.puzzle_end
puzzle_end-IsSound ld now k r r' s s' u h =
    elim (Option-cases (Score.end_all ld now r.puzzle_map r.student_map [])) [
      | inl e ↦ absurd (ground arith)
      | inr ((m, students, text), e) ↦
          let (o, q) =
            end_all-IsOrdered ld now r.puzzle_map m r.student_map students [] text u.puzzles
              u.students e in
          let u' = with_puzzles-IsSound k _ m (with_students-IsSound k r students u q) o in
          ground (arith, u')
    ]

build_house_start-IsSound : (k : ℕ) (r : Room) → IsSound k r → IsSound k (Games.build_house_start r)
unfolding Games.build_house_start Room.add_group
build_house_start-IsSound k r u =
    with_groups-IsSound k r _ u (insert-IsOrdered 1 _ r.buildhouse_groups u.groups)

post_teacher_to_all_student_rooms :
    (p : ℕ) (t : CommandType) (w w' : Server) (sent : Bool)
    → Post.post_teacher_to_all_student p t w ≡ some (sent, w')
    → w'.room_map ≡ w.room_map
unfolding Post.post_teacher_to_all_student
post_teacher_to_all_student_rooms p t w w' sent h = ground arith

pub handle_puzzle_game_start-Keeps : Keeps Puzzle.handle_puzzle_game_start
unfolding Puzzle.handle_puzzle_game_start Post.post_teacher_to_all_student
handle_puzzle_game_start-Keeps ks env p w w' u h =
    elim (Option-cases (Post.post_teacher_to_all_student p st_puzzle_game_start w)) [
      | inl e ↦ absurd (ground arith)
      | inr ((sent, w1), e) ↦
          let same = post_teacher_to_all_student_rooms p st_puzzle_game_start w w1 sent e in
          let u1 = subst (IsWell ks) (sym same) u in
          elim (Option-cases (room_of p w1)) [
            | inl f ↦ ground arith
            | inr ((k, r), f) ↦ ground (
              arith,
              assign-IsWell k (Games.puzzle_start env.now r) w1.room_map
                  (puzzle_start-IsSound env.now k r
                    (get_room_by_fd-IsSound _ k r w1.room_map u1.sound f))
                  u1,
            )
          ]
    ]

pub handle_puzzle_end_game-Keeps : Keeps Puzzle.handle_puzzle_end_game
unfolding Puzzle.handle_puzzle_end_game
handle_puzzle_end_game-Keeps ks env p w w' u h = elim (Option-cases (room_of p w)) [
  | inl e ↦ ground arith
  | inr ((k, r), e) ↦
      let v = get_room_by_fd-IsSound _ k r w.room_map u.sound e in
      let fd = get_fd p w.single in
      let ended =
        assign-IsWell k (Games.end_puzzle_by_fd env.now fd r) w.room_map
          (end_puzzle_by_fd-IsSound env.now fd k r v) u in
      elim (Option-cases (Score.puzzle_end env.ld env.now r w.single)) [
        | inl f ↦ ground (arith, ended)
        | inr ((r1, s1), f) ↦ ground (
          arith,
          ended,
          assign-IsWell k r1 w.room_map (puzzle_end-IsSound env.ld env.now k r r1 w.single s1 v f)
              u,
        )
      ]
]

pub handle_build_house_game_start-Keeps : Keeps BuildHouse.handle_build_house_game_start
unfolding BuildHouse.handle_build_house_game_start Post.post_teacher_to_white
handle_build_house_game_start-Keeps ks env p w w' u h = elim (Option-cases (room_of p w)) [
  | inl e ↦ ground arith
  | inr ((k, r), e) ↦ ground (
    arith,
    assign-IsWell k (Games.build_house_start r) w.room_map
        (build_house_start-IsSound k r (get_room_by_fd-IsSound _ k r w.room_map u.sound e)) u,
  )
]
