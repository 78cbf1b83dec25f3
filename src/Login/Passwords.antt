-- ===== src/Login/Passwords.antt =====
-- content/LoginCheck.cpp: which passwords open the server.
use teachserver.Base.{ℕ, ◌≡◌, ◌≢◌, refl, List, [], ◌∷◌, ◌++◌, arith, true}
use mathlib.Core.Logic.{◌↔◌}
use teachserver.Room.Score.{until_nul}
use teachserver.Database.{Database}
use teachserver.Login.{is_prefix, stored_password, login_teacher}

is_prefix_sound : (as' bs : List ℕ) → is_prefix as' bs ≡ true → (rest : List ℕ) × (bs ≡ as' ++ rest)
unfolding is_prefix
is_prefix_sound [] bs h = (bs, refl)
is_prefix_sound (a ∷ as') [] h = cc
is_prefix_sound (a ∷ as') (b ∷ bs) h =
    let (rest, e) = is_prefix_sound as' bs (ground arith) in (rest, ground (arith, e))

is_prefix_complete : (as' rest : List ℕ) → is_prefix as' (as' ++ rest) ≡ true
unfolding is_prefix
is_prefix_complete [] rest = refl
is_prefix_complete (a ∷ as') rest = ground (arith, is_prefix_complete as' rest)

-- A teacher is let in with the stored password or with any beginning of it but the empty one: the
-- test reads as many bytes as the client sent.
pub login_teacher_iff :
    (db : Database) (username password : List ℕ)
    → (login_teacher db username password ≡ true) ↔ (
        (password ≢ [])
        × ((rest : List ℕ) × (until_nul (stored_password (db.select_teacher username))
              ≡ password ++ rest)))
unfolding login_teacher
login_teacher_iff db username [] = (λ h. absurd (ground arith), λ h. absurd (h.0 refl))
login_teacher_iff db username (c ∷ cs) = (
  λ h. (λ e. cc, is_prefix_sound (c ∷ cs) _ (ground arith)),
  λ (n, (rest, e)). ground (arith, e, is_prefix_complete (c ∷ cs) rest),
)
