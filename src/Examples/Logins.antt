-- ===== src/Examples/Logins.antt =====
-- Logins: the theorems at concrete ones.
use teachserver.Base.{
  ℕ, ◌≡◌, ◌≢◌, refl, true, some, List, [], ◌∷◌, ◌++◌, arith, get_u32, ◌==◌, if◌then◌else◌,
}
use mathlib.Core.Logic.{◌↔◌}
use teachserver.Protocol.{code, client_code}
use teachserver.Protocol.Command.{ct_login_result}
use teachserver.Single.{get_fd, block}
use teachserver.Student.{Student}
use teachserver.Room.Score.{until_nul}
use teachserver.Server.{Server, body, c_str}
use teachserver.Login.{gather, stored_password, login_teacher, check}
use teachserver.Login.Passwords.{login_teacher_iff}
use teachserver.Login.Answer.{succeeded, failed, check-teacher}
use teachserver.Login.Statuses.{read_statuses, statuses, present, gather-reads}
use teachserver.Examples.{mailbox, server, empty_db, pupil, pupils}

login_teacher_iff_example : (login_teacher empty_db (97 ∷ []) (115 ∷ []) ≡ true) ↔ (
    (◌≢◌ {A = List ℕ} (115 ∷ []) [])
    × ((rest : List ℕ) × (until_nul (stored_password (empty_db.select_teacher (97 ∷ [])))
          ≡ 115 ∷ [] ++ rest)))
login_teacher_iff_example = login_teacher_iff empty_db (97 ∷ []) (115 ∷ [])

-- A teacher named a with the password s.
abbrev request : ℕ → ℕ
request i = if i == 0 then 2 else if i == 4 then 97 else if i == 24 then 115 else 0

abbrev asking : Server
asking = server (mailbox 52 0 request [] []) pupils

check-teacher_example :
    (w' : Server) × (check empty_db 1 asking ≡ some w')
    × (w'.single.sendqueue ≡ asking.single.sendqueue ++ 1 ∷ [])
    × (get_fd 1 w'.single ≡ get_fd 1 asking.single)
    × ((block 1 w'.single).c_type ≡ code ct_login_result)
    × ((block 1 w'.single).c_len ≡ 62)
    × (get_u32 (body 1 w') 0 ≡ (if login_teacher empty_db (97 ∷ []) (115 ∷ []) then 1 else 2))
    × (c_str (body 1 w') 4 50
        ≡ some (if login_teacher empty_db (97 ∷ []) (115 ∷ []) then succeeded else failed))
    × (w'.room_map ≡ asking.room_map)
unfolding get_u32 client_code c_str
check-teacher_example =
    check-teacher empty_db 1 asking (97 ∷ []) (115 ∷ []) refl refl refl (ground arith)

abbrev students : List (ℕ × Student)
students = (10, pupil 21) ∷ (11, pupil 22) ∷ []

gather-reads_example :
    (m' : ℕ → ℕ) × (gather (present students) 0 (λ i. 0) ≡ some (2, m'))
    × (read_statuses m' 4 2 ≡ statuses students)
gather-reads_example = gather-reads students (λ i. 0) (ground arith)
