-- ===== src/Room/Notify.antt =====
-- content/room.cpp: the operations that send messages to the clients of a room.
use teachserver.Base.{
  ℕ, ◌+◌, ◌*◌, Option, none, some, [], ◌∷◌, ◌>>=◌, ◌==◌, ltb, if◌then◌else◌, put_u32,
}
use teachserver.StdMap
use teachserver.StdMap.{StdMap}
use teachserver.Protocol.{code, offline, status_code, msg_head_len, student_status_len}
use teachserver.Protocol.Command.{st_send_student_status}
use teachserver.Single.{
  Single, null, block, with_block, set_fd, set_size, set_len, set_type, reset, write_data,
  pool_malloc, pool_free, send_enqueue, copy_object,
}
use teachserver.Student.{Student, set_student_status}
use teachserver.Room
use teachserver.Room.{Room}

-- The bytes of a TSendStudentStatusReq at an offset.
unfoldable pub put_status : (ℕ → ℕ) → ℕ → ℕ → ℕ → ℕ → ℕ
put_status m o id status = put_u32 (put_u32 m o id) (o + 4) status

-- A buffer from the pool with one status, sent to one client. No test for an empty pool.
unfoldable pub send_status : ℕ → ℕ → ℕ → Single → Option Single
unfolding pool_malloc set_len set_type put_status set_size set_fd send_enqueue write_data
send_status fd id status s =
    let (p, s1) = pool_malloc s in
    if p == null then none else do
      let len = msg_head_len + student_status_len
      let s2 = set_type p (code st_send_student_status) (set_len p len s1)
      s3 ← write_data p student_status_len (put_status (λ _. 0) 0 id status) s2
      some (send_enqueue p (set_fd p fd (set_size p len s3)))

unfoldable pub send_status_all : StdMap (Option Student) → ℕ → ℕ → Single → Option Single
unfolding send_status
send_status_all [] id status s = some s
send_status_all ((fd, student) ∷ m) id status s =
    send_status fd id status s >>= send_status_all m id status

-- CRoom::del_student: the teacher first, then every other student.
unfoldable pub del_student : ℕ → Room → Single → Option (Room × Single)
unfolding send_status send_status_all
del_student fd r s = elim (StdMap.find fd r.student_map) [
  | none ↦ some (r, s)
  | some none ↦ none
  | some (some student) ↦ do
    let status = status_code offline
    s1 ← send_status r.teacher_fd student.student_id status s
    let rest = StdMap.erase fd r.student_map
    s2 ← send_status_all rest student.student_id status s1
    some (record r { student_map = rest }, s2)
]

-- CRoom::teacher_disconnect.
unfoldable pub teacher_disconnect : Room → Single → Option (Room × Single)
unfolding send_status_all Room.reset
teacher_disconnect r s =
    send_status_all r.student_map 4294967295 4294967295 s >>= λ s'. some (Room.reset r, s')

-- The first loop of update_all_student_status: n students are written so far.
unfoldable pub collect_status : ℕ → ℕ → StdMap (Option Student) → Single → Option (ℕ × Single)
unfolding put_status set_len
collect_status p n [] s = some (n, s)
collect_status p n ((fd, none) ∷ m) s = none
collect_status p n ((fd, some student) ∷ m) s =
    let o = 4 + student_status_len * n in
    let b = block p s in
    let body = put_status b.body o student.student_id (status_code student.current_status) in
    let s' = with_block p (record b { body = body; c_len = b.c_len + student_status_len }) s in
    let rest = collect_status p (n + 1) m s' in
    if ltb (s.bufs p).size (msg_head_len + o + student_status_len) then none else rest

-- The second loop: `memcpy (pp, p, head->cLen)` copies the object, not the memory.
unfoldable pub post_status : ℕ → StdMap (Option Student) → Single → Option Single
unfolding pool_malloc copy_object set_size set_fd send_enqueue
post_status p [] s = some s
post_status p ((fd, student) ∷ m) s =
    let (pp, s1) = pool_malloc s in
    let len = (block p s).c_len in
    if pp == null then none else do
      s2 ← copy_object pp p len s1
      post_status p m (send_enqueue pp (set_fd pp fd (set_size pp len s2)))

-- `it->second->setStudentStatus (eCS_OFFLINE)` for the student who left; a NULL entry faults.
unfoldable pub mark_offline : ℕ → StdMap (Option Student) → Option (StdMap (Option Student))
unfolding set_student_status
mark_offline fd m = elim (StdMap.find fd m) [
  | none ↦ some m
  | some none ↦ none
  | some (some student) ↦ some (StdMap.assign fd (some (set_student_status offline student)) m)
]

unfoldable pub update_all_student_status : ℕ → Room → Single → Option (Room × Single)
unfolding pool_malloc set_len set_type mark_offline collect_status post_status reset pool_free
update_all_student_status fd r s =
    let (p, s1) = pool_malloc s in
    if p == null then none else do
      let s2 = set_type p (code st_send_student_status) (set_len p (msg_head_len + 4) s1)
      marked ← mark_offline fd r.student_map
      (n, s3) ← collect_status p 0 marked s2
      let s4 = with_block p (record (block p s3) { body = put_u32 (block p s3).body 0 n }) s3
      let rest = StdMap.erase fd marked
      s5 ← post_status p rest s4
      some (record r { student_map = rest }, pool_free p (reset p s5))

unfoldable pub del_client : ℕ → Room → Single → Option (Room × Single)
unfolding teacher_disconnect update_all_student_status
del_client fd r s =
    if fd == r.teacher_fd
    then (do (r', s') ← teacher_disconnect r s; some (record r' { teacher_fd = 0 }, s'))
    else if fd == r.white_fd
    then some (record r { white_fd = 0 }, s)
    else update_all_student_status fd r s
