-- ===== src/Post.antt =====
-- handler/HandleMessage.cpp: the functions that pass messages on. The Boolean is what they return.
pub mod White
pub mod Students
pub mod Records
use teachserver.Base.{
  ℕ, ◌+◌, ◌-◌, ◌%◌, Bool, true, false, Option, none, some, List, [], ◌∷◌, ◌>>=◌, ◌==◌, ltb, ◌&&◌,
  if◌then◌else◌,
}
use teachserver.StdMap.{StdMap}
use teachserver.Protocol.{CommandType, code, msg_head_len}
use teachserver.Single.{
  Single, null, block, get_fd, set_fd, set_size, set_len, set_type, reset, write_data, pool_malloc,
  pool_free, send_enqueue,
}
use teachserver.Student.{Student}
use teachserver.Room
use teachserver.Room.{Room}
use teachserver.Manager
use teachserver.Server.{Server, with_single, free, room_of}

-- The type and the receiver are set, the size is taken from the head, and the buffer is queued.
unfoldable pub send_as : ℕ → ℕ → ℕ → Single → Single
unfolding set_type set_fd set_size send_enqueue
send_as p t fd s =
    let s' = set_fd p fd (set_type p t s) in send_enqueue p (set_size p (block p s').c_len s')

-- `data` is none where the pointer is NULL.
unfoldable pub post_message : ℕ → CommandType → Option (ℕ → ℕ) → ℕ → Single → Option (Bool × Single)
unfolding set_len set_type set_size write_data send_enqueue code
post_message p t none len s =
    if p == null
    then some (false, s)
    else let s' = set_type p (code t) (set_len p msg_head_len s) in
      some (true, send_enqueue p (set_size p msg_head_len s'))
post_message p t (some bytes) len s = if p == null then some (false, s) else do
  let total = (msg_head_len + len) % 4294967296
  s' ← write_data p len bytes (set_len p total (set_type p (code t) s))
  some (true, send_enqueue p (set_size p total s'))

unfoldable pub post_teacher_to_white : ℕ → CommandType → Server → Bool × Server
unfolding send_as pool_free code
post_teacher_to_white p t w = if p == null then (false, w) else elim (room_of p w) [
  | none ↦ (false, free p w)
  | some (k, pc) ↦
      if pc.teacher_fd == get_fd p w.single
      then (true, with_single (send_as p (code t) pc.white_fd) w)
      else (false, free p w)
]

unfoldable pub post_student_to_white : ℕ → CommandType → Server → Bool × Server
unfolding send_as pool_free code Room.get_student_by_fd
post_student_to_white p t w = if p == null then (false, w) else elim (room_of p w) [
  | none ↦ (false, free p w)
  | some (k, pc) ↦ elim (Room.get_student_by_fd (get_fd p w.single) pc) [
    | none ↦ (false, free p w)
    | some student ↦ (true, with_single (send_as p (code t) pc.white_fd) w)
  ]
]

-- `if (iLen > iHeadLen) memcpy (...)`, on ints.
unfoldable pub copy_payload : ℕ → ℕ → ℕ → Single → Option Single
unfolding write_data
copy_payload pbuf p len s =
    if ltb len 2147483648 && ltb msg_head_len len
    then write_data pbuf (len - msg_head_len) (block p s).body s
    else some s

-- The loop over the students. Where the pool is empty, `pbuf->reset ()` reads NULL.
unfoldable pub post_each : ℕ → ℕ → ℕ → StdMap (Option Student) → Single → Option Single
unfolding pool_malloc set_len set_type copy_payload set_size set_fd send_enqueue
post_each p len t [] s = some s
post_each p len t ((fd, student) ∷ m) s =
    let (pbuf, s1) = pool_malloc s in
    if pbuf == null then none else do
      s2 ← copy_payload pbuf p len (set_type pbuf t (set_len pbuf len s1))
      post_each p len t m (send_enqueue pbuf (set_fd pbuf fd (set_size pbuf len s2)))

unfoldable pub post_teacher_to_all_student : ℕ → CommandType → Server → Option (Bool × Server)
unfolding post_each reset pool_free code
post_teacher_to_all_student p t w = if p == null then some (false, w) else elim (room_of p w) [
  | none ↦ some (false, free p (with_single (reset p) w))
  | some (k, pc) ↦ do
    s ← post_each p (block p w.single).c_len (code t) pc.student_map w.single
    some (true, record w { single = pool_free p (reset p s) })
]

-- The descriptor of the first student with the id; a NULL entry before it faults.
unfoldable pub student_fd_by_id : ℕ → StdMap (Option Student) → Option (Option ℕ)
student_fd_by_id id [] = some none
student_fd_by_id id ((fd, none) ∷ m) = none
student_fd_by_id id ((fd, some student) ∷ m) =
    if student.student_id == id then some (some fd) else student_fd_by_id id m

-- Where it fails, the buffer is neither sent nor freed.
unfoldable pub post_teacher_to_student : ℕ → CommandType → ℕ → Server → Option (Bool × Server)
unfolding student_fd_by_id send_as code
post_teacher_to_student p t id w = if p == null then some (false, w) else elim (room_of p w) [
  | none ↦ some (false, w)
  | some (k, pc) ↦
      if pc.teacher_fd == get_fd p w.single
      then student_fd_by_id id pc.student_map >>= elim [
        | none ↦ some (false, w)
        | some fd ↦ some (true, with_single (send_as p (code t) fd) w)
      ]
      else some (false, w)
]
