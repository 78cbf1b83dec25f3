-- ===== src/Examples/Wire.antt =====
-- The two ends of the server: the theorems at concrete ones.
use teachserver.Base.{
  ℕ, ◌+◌, ◌≡◌, refl, some, List, [], ◌∷◌, ◌++◌, arith, get_u32, update, ltb, if◌then◌else◌, false,
}
use teachserver.Single.{Single, get_fd, block, pool_free, reset}
use teachserver.Room.Score.{as_bytes}
use teachserver.Server.{Server}
use teachserver.SendTask.{SendAnswer, wrote, again, send_step}
use teachserver.SendTask.Delivery.{send_step-delivers, wire}
use teachserver.Evloop.{Loop, recv_cb}
use teachserver.Evloop.Receive.{arrivals}
use teachserver.Evloop.Message.{recv_cb-decodes}
use teachserver.Examples.{mailbox, server, pupils}

-- The buffer 1 waits for the client 7 with 20 bytes.
abbrev outbox : Single
outbox = record (mailbox 20 0 (λ i. i) [] []) {
  bufs = λ q. record { ptr = q + 4096; size = 5120; used = 20; fd = 7; id = q };
  sendqueue = 1 ∷ 2 ∷ [];
}

-- 12 bytes, an interruption, 8 bytes.
abbrev line : List SendAnswer
line = wrote 12 ∷ again ∷ wrote 8 ∷ []

send_step-delivers_example :
    (s' : Single) × (send_step line outbox
      ≡ some (record { fd = 7; buf = 1; bytes = wire 1 outbox } ∷ [], s'))
    × (s'.sendqueue ≡ 2 ∷ [])
    × (s'.bufpool ≡ [] ++ 1 ∷ [])
    × (s'.recvqueue ≡ [])
    × (block 1 s' ≡ record { c_len = 0; c_type = 0; body = λ _. 0 })
send_step-delivers_example =
    send_step-delivers line outbox 1 (2 ∷ []) refl (ground arith) (ground arith) (ground arith)
      (ground arith)

abbrev delivered : Single
delivered = pool_free 1 (reset 1 (record outbox { sendqueue = 2 ∷ [] }))

abbrev listening : Server
listening = server (mailbox 0 0 (λ i. 0) (1 ∷ 2 ∷ []) []) pupils

abbrev loop : Loop
loop = record { io = λ fd. false; lasttime = λ fd. 0; clientcount = 1 }

-- A message of 10 bytes, in four pieces.
abbrev heads : List (List ℕ)
heads = (10 ∷ 0 ∷ []) ∷ (0 ∷ 0 ∷ []) ∷ []

abbrev bodies : List (List ℕ)
bodies = (9 ∷ []) ∷ (0 ∷ 0 ∷ 0 ∷ 65 ∷ 66 ∷ []) ∷ []

recv_cb-decodes_example :
    (w' : Server) × (recv_cb 7 50 (arrivals heads (arrivals bodies [])) loop listening
      ≡ some (record loop { lasttime = update loop.lasttime 7 50 }, w'))
    × (w'.single.recvqueue ≡ [] ++ 1 ∷ [])
    × (w'.single.bufpool ≡ 2 ∷ [])
    × (w'.single.sendqueue ≡ [])
    × (get_fd 1 w'.single ≡ 7)
    × ((w'.single.bufs 1).ptr ≡ 4097)
    × ((block 1 w'.single).c_len ≡ 10)
    × ((block 1 w'.single).c_type ≡ get_u32 (as_bytes (9 ∷ 0 ∷ 0 ∷ 0 ∷ 65 ∷ 66 ∷ [])) 0)
    × ((i : ℕ)
        → (block 1 w'.single).body i
          ≡ (if ltb (i + 4) 6 then as_bytes (9 ∷ 0 ∷ 0 ∷ 0 ∷ 65 ∷ 66 ∷ []) (i + 4) else 0))
    × (w'.room_map ≡ listening.room_map)
unfolding get_u32 as_bytes
recv_cb-decodes_example =
    recv_cb-decodes 7 50 1 (2 ∷ []) heads bodies [] loop listening refl (ground arith)
      (ground arith) (ground arith) refl refl (ground arith) (ground arith) (ground arith)

-- A length of 20, and an end after 6 of the 16 bytes behind it.
abbrev announced : List (List ℕ)
announced = (20 ∷ 0 ∷ []) ∷ (0 ∷ 0 ∷ []) ∷ []
