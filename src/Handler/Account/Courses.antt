-- ===== src/Handler/Account/Courses.antt =====
-- handler/HandleClassRoom.cpp: the courses that a teacher opens, and what the room is told of them.
use teachserver.Base.{
  ℕ, zero, suc, ◌+◌, ◌≡◌, ◌≢◌, ◌≤◌, ◌<◌, refl, ap, ◌∙◌, some, List, [], ◌∷◌, ◌++◌, arith, All,
  length, copy_bytes, append_none, Option-cases, inl, inr, suc, append_one, map,
}
use teachserver.StdMap
use teachserver.StdMap.{StdMap}
use teachserver.StdMap.Laws.{IsOrdered, Above}
use teachserver.Protocol.{code}
use teachserver.Protocol.Command.{st_get_course_group}
use teachserver.QueueT.{enqueue}
use teachserver.Single.{
  with_block, block, get_fd, set_len, set_type, set_size, write_data, send_enqueue,
}
use teachserver.Database.{CourseRow}
use teachserver.Room
use teachserver.Room.{Room, add_course, clear_all_course}
use teachserver.Room.Score.{until_nul, as_bytes}
use teachserver.Manager.{get_room_by_fd}
use teachserver.Server.{Server, Env, room_of, with_room, body, c_str}
use teachserver.Handler.Account.{
  new_course, add_courses, join_names, handle_set_course_group, handle_get_course_group,
}

-- The names of the rows, each with a comma behind it.
abbrev pub comma_list : List CourseRow → List ℕ
comma_list [] = []
comma_list (row ∷ rows) = row.course_name ++ 44 ∷ comma_list rows

course_list-add_courses :
    (rows : List CourseRow) (r : Room)
    → (add_courses rows r).course_list ≡ r.course_list ++ map new_course rows
unfolding add_courses add_course
course_list-add_courses [] r = append_none r.course_list
course_list-add_courses (row ∷ rows) r =
    course_list-add_courses rows (add_course (new_course row) r)
    ∙ append_one r.course_list (map new_course rows) (new_course row)

join_names-new : (rows : List CourseRow) → join_names (map new_course rows) ≡ comma_list rows
unfolding join_names new_course
join_names-new [] = refl
join_names-new (row ∷ rows) = ap (λ t. row.course_name ++ 44 ∷ t) (join_names-new rows)

-- Adding courses leaves the members of the room.
get_room_by_fd-add_courses :
    (fd : ℕ) (rows : List CourseRow) (r s : Room)
    → Room.get_room_by_fd fd s ≡ some s
    → r.student_map ≡ s.student_map
    → r.teacher_fd ≡ s.teacher_fd
    → r.white_fd ≡ s.white_fd
    → Room.get_room_by_fd fd (add_courses rows r) ≡ some (add_courses rows r)
unfolding add_courses add_course Room.get_room_by_fd
get_room_by_fd-add_courses fd [] r s e m t u = ground (arith, e, m, t, u)
get_room_by_fd-add_courses fd (row ∷ rows) r s e m t u =
    get_room_by_fd-add_courses fd rows (add_course (new_course row) r) s e m t u

get_room_by_fd-own :
    (fd k : ℕ) (room : Room) (rooms : StdMap Room)
    → get_room_by_fd fd rooms ≡ some (k, room)
    → Room.get_room_by_fd fd room ≡ some room
unfolding get_room_by_fd Room.get_room_by_fd
get_room_by_fd-own fd k room [] e = cc
get_room_by_fd-own fd k room ((j, r) ∷ rooms) e = ground (arith, get_room_by_fd-own fd k room rooms)

get_room_by_fd-Above :
    (fd j k : ℕ) (room : Room) (rooms : StdMap Room)
    → Above j rooms
    → get_room_by_fd fd rooms ≡ some (k, room)
    → j < k
unfolding get_room_by_fd
get_room_by_fd-Above fd j k room [] o e = cc
get_room_by_fd-Above fd j k room ((i, r) ∷ rooms) o e =
    elim (Option-cases (Room.get_room_by_fd fd r)) [
      | inl none_here ↦ get_room_by_fd-Above fd j k room rooms o.1 (ground (arith, none_here, e))
      | inr (found, here) ↦ ground (arith, here, e, o.0)
    ]

-- The client finds its room also after the room was written.
get_room_by_fd-assign :
    (fd k : ℕ) (room after : Room) (rooms : StdMap Room)
    → IsOrdered rooms
    → get_room_by_fd fd rooms ≡ some (k, room)
    → Room.get_room_by_fd fd after ≡ some after
    → get_room_by_fd fd (StdMap.assign k after rooms) ≡ some (k, after)
unfolding get_room_by_fd StdMap.assign
get_room_by_fd-assign fd k room after [] o e h = cc
get_room_by_fd-assign fd k room after ((j, r) ∷ rooms) o e h =
    elim (Option-cases (Room.get_room_by_fd fd r)) [
      | inl none_here ↦
          let e' : (get_room_by_fd fd rooms ≡ some (k, room)) = ground (arith, none_here, e) in
          let above = get_room_by_fd-Above fd j k room rooms o.0 e' in
          ground (arith, none_here, above, get_room_by_fd-assign fd k room after rooms o.1 e' h)
      | inr (found, here) ↦ ground (arith, here, e, h)
    ]

-- A text without a NUL is cut nowhere, and is read back from its bytes.
until_nul_whole : (cs : List ℕ) → All (λ c. c ≢ 0) cs → until_nul cs ≡ cs
unfolding until_nul
until_nul_whole [] us = refl
until_nul_whole (c ∷ cs) us = ground (arith, us.0, until_nul_whole cs us.1)

c_str-as_bytes :
    (m : ℕ → ℕ) (o n : ℕ) (cs : List ℕ)
    → length cs < n
    → All (λ c. c ≢ 0) cs
    → ((i : ℕ) → i < n → m (o + i) ≡ as_bytes cs i)
    → c_str m o n ≡ some cs
unfolding c_str as_bytes
c_str-as_bytes m o zero cs small us h = absurd (omega (arith, small))
c_str-as_bytes m o (suc n) [] small us h =
    let here : (m o ≡ 0) = ap m (omega arith) ∙ h 0 (omega arith) in ground (arith, here)
c_str-as_bytes m o (suc n) (c ∷ cs) small us h =
    let here : (m o ≡ c) = ap m (omega arith) ∙ h 0 (omega arith) in
    let rest =
      c_str-as_bytes m (o + 1) n cs (omega (arith, small)) us.1
        (λ i lt. ap m (omega arith) ∙ h (suc i) (omega (arith, lt))) in
    ground (arith, here, rest, us.0)

-- A room whose clients are those of another one finds them as that does.
room_of-with_room :
    (q k : ℕ) (room after : Room) (w : Server)
    → IsOrdered w.room_map
    → room_of q w ≡ some (k, room)
    → Room.get_room_by_fd (get_fd q w.single) after ≡ some after
    → room_of q (with_room k after w) ≡ some (k, after)
room_of-with_room q k room after w o e h =
    get_room_by_fd-assign (get_fd q w.single) k room after w.room_map o e h

set_run :
    (env : Env) (p k : ℕ) (w : Server) (room : Room) (grade group : List ℕ) (rows : List CourseRow)
    → c_str (body p w) 0 20 ≡ some grade
    → c_str (body p w) 20 20 ≡ some group
    → env.db.select_used_course grade group ≡ some rows
    → room_of p w ≡ some (k, room)
    → handle_set_course_group env p w
      ≡ some (with_room k (add_courses rows (clear_all_course room)) w)
unfolding handle_set_course_group
set_run env p k w room grade group rows eg en er e = ground (arith, eg, en, er, e)

-- What a client that asks for the courses is sent, in the buffer of its question.
pub record IsTold (q : ℕ) (names : List ℕ) (w w' : Server) : Type 0 where
  pub sendqueue : w'.single.sendqueue ≡ w.single.sendqueue ++ q ∷ []
  pub receiver : get_fd q w'.single ≡ get_fd q w.single
  pub used : (w'.single.bufs q).used ≡ 136
  pub c_len : (block q w'.single).c_len ≡ 136
  pub c_type : (block q w'.single).c_type ≡ code st_get_course_group
  pub course_list : c_str (body q w') 0 128 ≡ some names
  pub rooms : w'.room_map ≡ w.room_map

abbrev told : ℕ → List ℕ → Server → Server
unfolding set_len set_type set_size send_enqueue
told q names w =
    let s = set_len q 136 (set_type q (code st_get_course_group) w.single) in
    let b = block q s in
    let text = copy_bytes 128 b.body (as_bytes names) in
    record w {
      single = send_enqueue q (set_size q 136 (with_block q (record b { body = text }) s));
    }

told_run :
    (env : Env) (q k : ℕ) (w : Server) (room : Room) (names : List ℕ)
    → room_of q w ≡ some (k, room)
    → join_names room.course_list ≡ names
    → length names < 128
    → until_nul names ≡ names
    → 136 ≤ (w.single.bufs q).size
    → handle_get_course_group env q w ≡ some (told q names w)
unfolding told handle_get_course_group write_data set_len set_type set_size send_enqueue enqueue
told_run env q k w room names e same small cut fits = ground (arith, e, same, small, cut, fits)

IsTold-told :
    (q : ℕ) (w : Server) (names : List ℕ)
    → length names < 128
    → All (λ c. c ≢ 0) names
    → IsTold q names w (told q names w)
unfolding told set_len set_type set_size send_enqueue enqueue copy_bytes
IsTold-told q w names small us = record {
  sendqueue = refl;
  receiver = ground arith;
  used = ground arith;
  c_len = ground arith;
  c_type = ground arith;
  course_list = c_str-as_bytes _ 0 128 names small us (λ i lt. ground (arith, lt));
  rooms = refl;
}

-- The teacher of a room opens the courses that the database has for a grade and a group, and a
-- client in that room whose question is handled next is told exactly those, in the order in which the database gave them,
-- each with a comma behind it, whatever courses were open before. It is so where the rooms are in
-- the order of their keys, the names with their commas have no NUL in them and are fewer than 128
-- bytes, and the buffer of the question has room for the answer.
pub handle_set_course_group-tells :
    (env : Env) (p q k : ℕ) (w : Server) (room : Room) (grade group : List ℕ)
    (rows : List CourseRow)
    → IsOrdered w.room_map
    → c_str (body p w) 0 20 ≡ some grade
    → c_str (body p w) 20 20 ≡ some group
    → env.db.select_used_course grade group ≡ some rows
    → room_of p w ≡ some (k, room)
    → room_of q w ≡ some (k, room)
    → length (comma_list rows) < 128
    → All (λ c. c ≢ 0) (comma_list rows)
    → 136 ≤ (w.single.bufs q).size
    → (w1 w2 : Server) × (handle_set_course_group env p w ≡ some w1)
      × (handle_get_course_group env q w1 ≡ some w2)
      × IsTold q (comma_list rows) w1 w2
unfolding clear_all_course
handle_set_course_group-tells env p q k w room grade group rows o eg en er ep eq small us fits =
    let cleared = clear_all_course room in
    let after = add_courses rows cleared in
    let names = comma_list rows in
    let w1 = with_room k after w in
    let own = get_room_by_fd-own (get_fd q w.single) k room w.room_map eq in
    let same =
      get_room_by_fd-add_courses (get_fd q w.single) rows cleared room own refl refl refl in
    let listed = ap join_names (course_list-add_courses rows cleared) ∙ join_names-new rows in
    (
      w1,
      told q names w1,
      set_run env p k w room grade group rows eg en er ep,
      told_run env q k w1 after names (room_of-with_room q k room after w o eq same) listed small
          (until_nul_whole names us) fits,
      IsTold-told q w1 names small us,
    )
