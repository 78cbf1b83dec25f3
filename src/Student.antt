-- ===== src/Student.antt =====
-- content/student.cpp: a student's client.
use teachserver.Base.{ℕ, Bool, List, ◌++◌}
use teachserver.Protocol.{ClientStatus}

-- `addr` is the address of the object; the other fields are its members.
pub record Student : Type 0 where
  pub addr : ℕ
  pub current_status : ClientStatus
  pub name : List ℕ
  pub account_name : List ℕ
  pub on_line : Bool
  pub student_id : ℕ
  pub picture_name : List ℕ

unfoldable pub set_student_status : ClientStatus → Student → Student
set_student_status ess s = record s { current_status = ess }

unfoldable pub set_name : List ℕ → List ℕ → Student → Student
set_name s1 s2 s = record s { name = s1 ++ s2 }

unfoldable pub set_account : List ℕ → Student → Student
set_account acc s = record s { account_name = acc }

unfoldable pub set_on_line : Bool → Student → Student
set_on_line b s = record s { on_line = b }

unfoldable pub set_id : ℕ → Student → Student
set_id id s = record s { student_id = id }

unfoldable pub set_picture_name : List ℕ → Student → Student
set_picture_name name s = record s { picture_name = name }
