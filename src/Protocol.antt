-- ===== src/Protocol.antt =====
-- protocol.h: message types, client kinds and states, and the sizes of the packed structures.
pub mod Command
use teachserver.Base.{ℕ}
pub use Command.{CommandType}
unfoldable pub use Command.{code}

-- sizeof (MSG_HEAD): the length and the type of a message, four bytes each.
abbrev pub msg_head_len : ℕ
msg_head_len = 8

-- enum mClientType, as it stands in a message.
pub data ClientType : Type 0 where
  mct_student mct_teacher mct_whiteboard : ClientType

unfoldable pub client_code : ClientType → ℕ
client_code mct_student = 1
client_code mct_teacher = 2
client_code mct_whiteboard = 3

-- enum eClientStatus.
pub data ClientStatus : Type 0 where
  online offline leave_early no_login : ClientStatus

unfoldable pub status_code : ClientStatus → ℕ
status_code online = 1
status_code offline = 2
status_code leave_early = 3
status_code no_login = 4

-- sizeof (TSendStudentStatusReq): a student's id and status, four bytes each.
abbrev pub student_status_len : ℕ
student_status_len = 8
