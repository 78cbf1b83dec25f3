-- ===== src/Login.antt =====
-- content/LoginCheck.cpp: logging in. The result of a login is true for 0 and false for -1.
pub mod Passwords
pub mod Answer
pub mod Statuses
use teachserver.Base.{
  ℕ, ◌+◌, ◌*◌, Bool, true, false, Option, none, some, List, [], ◌∷◌, ◌>>=◌, ◌==◌, ltb, ◌&&◌,
  if◌then◌else◌, length, get_u32, put_u32,
}
use teachserver.StdMap
use teachserver.StdMap.{StdMap}
use teachserver.Protocol.{
  code, client_code, mct_student, mct_teacher, mct_whiteboard, status_code, online, msg_head_len,
  student_status_len,
}
use teachserver.Protocol.Command.{ct_login_result, st_send_student_status}
use teachserver.Single.{
  Single, null, get_fd, set_fd, set_size, set_len, set_type, write_data, pool_malloc, send_enqueue,
}
use teachserver.Student.{
  Student, set_student_status, set_name, set_account, set_on_line, set_id, set_picture_name,
}
use teachserver.Room
use teachserver.Room.{Room}
use teachserver.Room.Score.{until_nul}
use teachserver.Database.{Database, StudentRow}
use teachserver.Layout.Structs.{s_login_out_result}
use teachserver.Layout.{text, word, put_fields}
use teachserver.Manager
use teachserver.Server.{Server, with_room, body, c_str}

-- `strncmp (a, b, strlen (a)) == 0` on C strings: a is a prefix of b.
unfoldable pub is_prefix : List ℕ → List ℕ → Bool
is_prefix [] bs = true
is_prefix (a ∷ as') [] = false
is_prefix (a ∷ as') (b ∷ bs) = if a == b then is_prefix as' bs else false

-- `while (prst->next ())` keeps the last row.
abbrev pub last_or {ℓ} : {A : Type ℓ} → A → List A → A
last_or d [] = d
last_or d (x ∷ xs) = last_or x xs

-- An exception leaves the password empty.
unfoldable pub stored_password : Option (List (List ℕ)) → List ℕ
stored_password none = []
stored_password (some rows) = last_or [] rows

unfoldable pub login_teacher : Database → List ℕ → List ℕ → Bool
unfolding stored_password is_prefix until_nul
login_teacher db username password =
    is_prefix password (until_nul (stored_password (db.select_teacher username)))
    && ltb 0 (length password)

abbrev no_row : StudentRow
no_row = record {
  student_id = 0;
  first_name = [];
  last_name = [];
  account = [];
  password = [];
  picture_name = [];
}

unfoldable pub stored_student : Option (List StudentRow) → StudentRow
stored_student none = no_row
stored_student (some rows) = last_or no_row rows

-- What a successful login writes to the student's object.
unfoldable pub signed_in : StudentRow → Student → Student
unfolding set_name set_account set_id set_picture_name set_on_line set_student_status
signed_in row student = set_student_status online (
    set_on_line true (
      set_picture_name row.picture_name (
        set_id row.student_id
          (set_account row.account (set_name row.first_name row.last_name student)))))

-- The message to the teacher: one status. No test for an empty pool.
unfoldable pub tell_teacher : ℕ → ℕ → Single → Option Single
unfolding pool_malloc set_len set_type write_data set_size set_fd send_enqueue code status_code
tell_teacher fd id s =
    let (pp, s1) = pool_malloc s in
    if pp == null then none else do
      let len = msg_head_len + 4 + student_status_len
      let s2 = set_type pp (code st_send_student_status) (set_len pp len s1)
      let bytes = put_u32 (put_u32 (put_u32 (λ _. 0) 0 1) 4 id) 8 (status_code online)
      s3 ← write_data pp (4 + student_status_len) bytes s2
      some (send_enqueue pp (set_fd pp fd (set_size pp len s3)))

-- The statuses of all students into `tempbuf[512]`, n of them so far, from offset 4 of the body; a
-- NULL entry faults, and so does a 65th student.
unfoldable pub gather : StdMap (Option Student) → ℕ → (ℕ → ℕ) → Option (ℕ × (ℕ → ℕ))
unfolding status_code
gather [] n m = some (n, m)
gather ((fd, none) ∷ students) n m = none
gather ((fd, some student) ∷ students) n m =
    let o = 4 + student_status_len * n in
    let m' =
      put_u32 (put_u32 m o student.student_id) (o + 4) (status_code student.current_status) in
    let rest = gather students (n + 1) m' in if ltb n 64 then rest else none

-- The same message to every student; one who finds the pool empty is left out.
unfoldable pub tell_students : ℕ → (ℕ → ℕ) → StdMap (Option Student) → Single → Option Single
unfolding pool_malloc set_len set_type write_data set_size set_fd send_enqueue code
tell_students n bytes [] s = some s
tell_students n bytes ((fd, student) ∷ students) s =
    let (pp, s1) = pool_malloc s in
    let len = msg_head_len + student_status_len * n + 4 in
    let s2 = set_type pp (code st_send_student_status) (set_len pp len s1) in
    elim (pp == null) [
      | true ↦ tell_students n bytes students s1
      | false ↦ write_data pp (4 + student_status_len * n) bytes s2 >>= λ s3.
          tell_students n bytes students (send_enqueue pp (set_fd pp fd (set_size pp len s3)))
    ]

unfoldable pub login_student : Database → ℕ → List ℕ → List ℕ → Server → Option (Bool × Server)
unfolding stored_student is_prefix until_nul signed_in tell_teacher gather tell_students
login_student db fd username password w =
    let row = stored_student (db.select_stu username password) in
    if is_prefix password (until_nul row.password)
    then elim (Manager.get_room_by_fd fd w.room_map) [
      | none ↦ some (false, w)
      | some (k, room) ↦ elim (Room.get_student_by_fd fd room) [
        | none ↦ some (false, w)
        | some student ↦ do
          let student' = signed_in row student
          let students = StdMap.assign fd (some student') room.student_map
          s1 ← tell_teacher room.teacher_fd student'.student_id w.single
          (n, bytes) ← gather students 0 (λ _. 0)
          s2 ← tell_students n (put_u32 bytes 0 n) students s1
          let w' = with_room k (record room { student_map = students }) w
          some (true, record w' { single = s2 })
      ]
    ]
    else some (false, w)

-- Any whiteboard is let in.
unfoldable pub login_whiteboard : Database → List ℕ → Bool
login_whiteboard db username = true

-- struct sLogin: type, username[20], password[20].
unfoldable pub login_as : Database → ℕ → Server → Option (Bool × Server)
unfolding c_str login_teacher login_student login_whiteboard client_code
login_as db p w =
    let m = body p w in
    let type = get_u32 m 0 in
    if type == client_code mct_student
    then (do
      username ← c_str m 4 20
      password ← c_str m 24 20
      login_student db (get_fd p w.single) username password w)
    else if type == client_code mct_teacher
    then (do
      username ← c_str m 4 20
      password ← c_str m 24 20
      some (login_teacher db username password, w))
    else if type == client_code mct_whiteboard
    then (c_str m 4 20 >>= λ username. some (login_whiteboard db username, w))
    else some (false, w)

-- "Login succeed" and "Login failed"
abbrev pub login_message : Bool → List ℕ
login_message true = 76 ∷ 111 ∷ 103 ∷ 105 ∷ 110 ∷ 32 ∷ 115 ∷ 117 ∷ 99 ∷ 99 ∷ 101 ∷ 101 ∷ 100 ∷ []
login_message false = 76 ∷ 111 ∷ 103 ∷ 105 ∷ 110 ∷ 32 ∷ 102 ∷ 97 ∷ 105 ∷ 108 ∷ 101 ∷ 100 ∷ []

-- RES_SUCCEED and RES_FAIL
abbrev pub login_code : Bool → ℕ
login_code true = 1
login_code false = 2

-- LoginCheck::check: the answer goes back in the buffer of the request.
unfoldable pub check : Database → ℕ → Server → Option Server
unfolding login_as put_fields set_len set_type write_data set_size send_enqueue code
check db p w = do
  (result, w') ← login_as db p w
  bytes ← put_fields (λ _. 0) 0 (s_login_out_result (login_code result) (login_message result))
  let len = msg_head_len + 54
  s ← write_data p 54 bytes (set_type p (code ct_login_result) (set_len p len w'.single))
  some (record w' { single = send_enqueue p (set_size p len s) })
