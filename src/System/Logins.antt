-- ===== src/System/Logins.antt =====
-- content/LoginCheck.cpp: a login keeps the rooms well.
use teachserver.Base.{
  ℕ, ◌≡◌, ◌≢◌, ◌∙◌, sym, ap, ==_ne, some, List, arith, ◌==◌, Option-cases, inl, inr, Bool, get_u32,
  false,
}
use native.Mathlib.Decide.{ℕ_discrete}
use mathlib.Core.Path.{subst}
use mathlib.Core.Option.{some-injective}
use teachserver.StdMap
use teachserver.StdMap.{StdMap, keys}
use teachserver.StdMap.Laws.{assign-IsOrdered}
use teachserver.Protocol.{client_code, mct_student, mct_teacher, mct_whiteboard}
use teachserver.Single.{get_fd}
use teachserver.Database.{Database}
use teachserver.Room
use teachserver.Room.{Room}
use teachserver.Manager
use teachserver.Login
use teachserver.Server.{Server, body, c_str}
use teachserver.Handler.Account
use teachserver.System.Ordered.{IsWell, Keeps, get_room_by_fd-IsSound, assign-IsWell}
use teachserver.System.Games.{with_students-IsSound}

login_student-IsWell :
    {ks : List ℕ} (db : Database) (fd : ℕ) (username password : List ℕ) (w w' : Server)
    (result : Bool)
    → IsWell ks w.room_map
    → Login.login_student db fd username password w ≡ some (result, w')
    → IsWell ks w'.room_map
unfolding Login.login_student
login_student-IsWell db fd username password w w' result u h =
    elim (Option-cases (Manager.get_room_by_fd fd w.room_map)) [
      | inl e ↦ ground arith
      | inr ((k, r), e) ↦ elim (Option-cases (Room.get_student_by_fd fd r)) [
        | inl f ↦ ground arith
        | inr (student, f) ↦
            let v = get_room_by_fd-IsSound fd k r w.room_map u.sound e in
            let row = Login.stored_student (db.select_stu username password) in
            let student' = some (Login.signed_in row student) in
            let m = StdMap.assign fd student' r.student_map in
            let o = assign-IsOrdered fd student' r.student_map v.students in
            ground (
              arith,
              assign-IsWell k (record r { student_map = m }) w.room_map
                  (with_students-IsSound k r m v o) u,
            )
      ]
    ]

login_as_other :
    (db : Database) (p : ℕ) (w : Server)
    → get_u32 (body p w) 0 == client_code mct_student ≡ false
    → get_u32 (body p w) 0 == client_code mct_teacher ≡ false
    → get_u32 (body p w) 0 == client_code mct_whiteboard ≡ false
    → Login.login_as db p w ≡ some (false, w)
unfolding Login.login_as
login_as_other db p w e1 e2 e3 = rw (e1, e2, e3)

other_rooms :
    (db : Database) (p : ℕ) (w w' : Server) (result : Bool)
    → get_u32 (body p w) 0 ≢ client_code mct_student
    → get_u32 (body p w) 0 ≢ client_code mct_teacher
    → get_u32 (body p w) 0 ≢ client_code mct_whiteboard
    → Login.login_as db p w ≡ some (result, w')
    → w'.room_map ≡ w.room_map
other_rooms db p w w' result n1 n2 n3 h =
    let type = get_u32 (body p w) 0 in
    let e = login_as_other db p w (==_ne type _ n1) (==_ne type _ n2) (==_ne type _ n3) in
    ap (λ (x : Bool × Server). x.1.room_map) (some-injective _ _ (sym h ∙ e))

-- Only a student's login writes a room.
login_as_rooms :
    (db : Database) (p : ℕ) (w w' : Server) (result : Bool)
    → get_u32 (body p w) 0 ≢ client_code mct_student
    → Login.login_as db p w ≡ some (result, w')
    → w'.room_map ≡ w.room_map
unfolding Login.login_as
login_as_rooms db p w w' result nt h =
    elim (ℕ_discrete (get_u32 (body p w) 0) (client_code mct_teacher)) [
      | yes t ↦ elim (Option-cases (c_str (body p w) 4 20)) [
        | inl e ↦ absurd (ground arith)
        | inr (username, e) ↦ elim (Option-cases (c_str (body p w) 24 20)) [
          | inl f ↦ absurd (ground arith)
          | inr (password, f) ↦ ground arith
        ]
      ]
      | no n ↦ elim (ℕ_discrete (get_u32 (body p w) 0) (client_code mct_whiteboard)) [
        | yes t ↦ elim (Option-cases (c_str (body p w) 4 20)) [
          | inl e ↦ absurd (ground arith)
          | inr (username, e) ↦ ground arith
        ]
        | no m ↦ other_rooms db p w w' result nt n m h
      ]
    ]

login_as_student :
    (db : Database) (p : ℕ) (w w' : Server) (result : Bool)
    → get_u32 (body p w) 0 ≡ client_code mct_student
    → Login.login_as db p w ≡ some (result, w')
    → (username : List ℕ) × (password : List ℕ) × (Login.login_student db
          (get_fd p w.single)
          username
          password
          w
        ≡ some (result, w'))
unfolding Login.login_as
login_as_student db p w w' result t h = elim (Option-cases (c_str (body p w) 4 20)) [
  | inl e ↦ absurd (ground arith)
  | inr (username, e) ↦ elim (Option-cases (c_str (body p w) 24 20)) [
    | inl f ↦ absurd (ground arith)
    | inr (password, f) ↦ (username, password, ground arith)
  ]
]

login_as-IsWell :
    {ks : List ℕ} (db : Database) (p : ℕ) (w w' : Server) (result : Bool)
    → IsWell ks w.room_map
    → Login.login_as db p w ≡ some (result, w')
    → IsWell ks w'.room_map
login_as-IsWell {ks} db p w w' result u h =
    elim (ℕ_discrete (get_u32 (body p w) 0) (client_code mct_student)) [
      | yes e ↦
          let (username, password, g) = login_as_student db p w w' result e h in
          login_student-IsWell db _ username password w w' result u g
      | no e ↦ subst (IsWell ks) (sym (login_as_rooms db p w w' result e h)) u
    ]

pub handle_login-Keeps : Keeps Account.handle_login
unfolding Account.handle_login Login.check
handle_login-Keeps ks env p w w' u h = elim (Option-cases (Login.login_as env.db p w)) [
  | inl e ↦ absurd (ground arith)
  | inr ((result, w1), e) ↦ ground (arith, login_as-IsWell env.db p w w1 result u e)
]
