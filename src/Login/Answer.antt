-- ===== src/Login/Answer.antt =====
-- content/LoginCheck.cpp: the answer to a teacher.
use teachserver.Base.{
  ℕ, ◌+◌, ◌<◌, ◌≤◌, ◌≡◌, refl, ap, Bool, true, false, some, List, [], ◌∷◌, ◌++◌, ◌∙◌, arith,
  get_u32, put_u32, copy_bytes, update, if◌then◌else◌,
}
use teachserver.Protocol.{code, client_code, mct_teacher}
use teachserver.Protocol.Command.{ct_login_result}
use teachserver.Single.{
  get_fd, block, with_block, set_len, set_type, set_size, write_data, send_enqueue,
}
use teachserver.Layout.Structs.{s_login_out_result}
use teachserver.Layout.Reads.{c_str-put_text, c_str_agree}
use teachserver.Layout.{put_text, put_fields}
use teachserver.Database.{Database}
use teachserver.Server.{Server, body, c_str}
use teachserver.Login.{login_as, login_teacher, login_code, login_message, check}

put_text_below : (m : ℕ → ℕ) (o i : ℕ) (cs : List ℕ) → i < o → put_text m o cs i ≡ m i
unfolding put_text
put_text_below m o i [] h = ground arith
put_text_below m o i (c ∷ cs) h = ground (arith, put_text_below (update m o c) (o + 1) i cs)

-- The structure of the answer.
abbrev answer : Bool → ℕ → ℕ
answer b = put_text (put_u32 (λ _. 0) 0 (login_code b)) 4 (login_message b)

answer_fields :
    (b : Bool)
    → put_fields (λ _. 0) 0 (s_login_out_result (login_code b) (login_message b)) ≡ some (answer b)
unfolding put_fields
answer_fields true = refl
answer_fields false = refl

answer_code : (b : Bool) (m : ℕ → ℕ) → get_u32 (copy_bytes 54 m (answer b)) 0 ≡ login_code b
unfolding get_u32 put_u32 put_text copy_bytes
answer_code true m = refl
answer_code false m = refl

-- The state after an answer.
abbrev answered : ℕ → Bool → Server → Server
unfolding send_enqueue set_size set_type set_len
answered p b w =
    let s = set_type p (code ct_login_result) (set_len p 62 w.single) in
    let head = record (block p s) { body = copy_bytes 54 (block p s).body (answer b) } in
    record w { single = send_enqueue p (set_size p 62 (with_block p head s)) }

-- "Login succeed" and "Login failed"
abbrev pub succeeded : List ℕ
succeeded = 76 ∷ 111 ∷ 103 ∷ 105 ∷ 110 ∷ 32 ∷ 115 ∷ 117 ∷ 99 ∷ 99 ∷ 101 ∷ 101 ∷ 100 ∷ []

abbrev pub failed : List ℕ
failed = 76 ∷ 111 ∷ 103 ∷ 105 ∷ 110 ∷ 32 ∷ 102 ∷ 97 ∷ 105 ∷ 108 ∷ 101 ∷ 100 ∷ []

outcome : (b : Bool) (m : ℕ → ℕ) → get_u32 (copy_bytes 54 m (answer b)) 0 ≡ (if b then 1 else 2)
outcome true m = answer_code true m
outcome false m = answer_code false m

message :
    (b : Bool) (m : ℕ → ℕ)
    → c_str (copy_bytes 54 m (answer b)) 4 50 ≡ some (if b then succeeded else failed)
unfolding copy_bytes
message true m =
    c_str_agree (answer true) (copy_bytes 54 m (answer true)) 4 50 (λ i lt. ground (arith, lt))
    ∙ c_str-put_text (put_u32 (λ _. 0) 0 1) 4 50 succeeded (ground arith) (ground arith)
message false m =
    c_str_agree (answer false) (copy_bytes 54 m (answer false)) 4 50 (λ i lt. ground (arith, lt))
    ∙ c_str-put_text (put_u32 (λ _. 0) 0 2) 4 50 failed (ground arith) (ground arith)

body_answered :
    (p : ℕ) (b : Bool) (w : Server) → body p (answered p b w) ≡ copy_bytes 54 (body p w) (answer b)
unfolding answered send_enqueue set_size set_type set_len
body_answered p b w = ground arith

-- The login of a teacher whose name and password end within their fields, in a buffer of 62 bytes
-- or more, is answered in the same buffer to the same client, behind all other messages, with the
-- code 1 and the text "Login succeed" where the name and the password are accepted, and the code 2
-- and "Login failed" where they are not; the rooms stay.
pub check-teacher :
    (db : Database) (p : ℕ) (w : Server) (username password : List ℕ)
    → get_u32 (body p w) 0 ≡ client_code mct_teacher
    → c_str (body p w) 4 20 ≡ some username
    → c_str (body p w) 24 20 ≡ some password
    → 62 ≤ (w.single.bufs p).size
    → (w' : Server) × (check db p w ≡ some w')
      × (w'.single.sendqueue ≡ w.single.sendqueue ++ p ∷ [])
      × (get_fd p w'.single ≡ get_fd p w.single)
      × ((block p w'.single).c_type ≡ code ct_login_result)
      × ((block p w'.single).c_len ≡ 62)
      × (get_u32 (body p w') 0 ≡ (if login_teacher db username password then 1 else 2))
      × (c_str (body p w') 4 50
          ≡ some (if login_teacher db username password then succeeded else failed))
      × (w'.room_map ≡ w.room_map)
unfolding check login_as set_len set_type set_size write_data send_enqueue client_code
check-teacher db p w username password kind name pass room =
    let b = login_teacher db username password in
    (
      answered p b w,
      ground (arith, answer_fields b),
      refl,
      ground arith,
      ground arith,
      ground arith,
      ap (λ m. get_u32 m 0) (body_answered p b w) ∙ outcome b (body p w),
      ap (λ m. c_str m 4 50) (body_answered p b w) ∙ message b (body p w),
      refl,
    )
