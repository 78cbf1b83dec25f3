-- ===== src/Examples/Requests.antt =====
-- Structures on the wire and the queue to it: the theorems at concrete ones.
use teachserver.Base.{ℕ, ◌+◌, Option, none, some, List, [], ◌∷◌}
use teachserver.Single.{Single}
use teachserver.Server.{Server}
use teachserver.Layout.{put_fields}
use teachserver.Layout.Structs.{s_login}
use teachserver.SendTask.{SendAnswer, wrote, again}
use teachserver.Examples.{mailbox, server, pupils}

abbrev filled : Option (ℕ → ℕ) → ℕ → ℕ
filled none = λ i. 0
filled (some m) = m

-- The teacher "ab" with the password "sec".
abbrev request : ℕ → ℕ
request = filled (put_fields (λ i. 1) 0 (s_login 2 (97 ∷ 98 ∷ []) (115 ∷ 101 ∷ 99 ∷ [])))

abbrev asked : Server
asked = server (mailbox 52 150 request (2 ∷ []) (1 ∷ [])) pupils

-- Two buffers of 20 bytes for the client 7.
abbrev outbox : Single
outbox = record (mailbox 20 0 (λ i. i) (3 ∷ []) []) {
  bufs = λ q. record { ptr = q + 4096; size = 5120; used = 20; fd = 7; id = q };
  sendqueue = 1 ∷ 2 ∷ [];
}

abbrev rounds : List (List SendAnswer)
rounds = (wrote 12 ∷ again ∷ wrote 8 ∷ []) ∷ (wrote 20 ∷ []) ∷ []
