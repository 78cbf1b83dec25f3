-- ===== src/Evloop/Receive.antt =====
-- Evloop.cpp: a message that arrives whole, in pieces of any size.
use teachserver.Base.{
  ℕ, ◌+◌, ◌-◌, ◌%◌, ◌<◌, ◌≡◌, ◌≢◌, refl, false, some, List, [], ◌∷◌, ◌++◌, arith, length,
  length-append, append_assoc, append-nil,
}
use teachserver.Evloop.{RecvAnswer, chunk, idle, closed, failed, recv_n}

-- The bytes of pieces, one after the other, and the answers of `recv` that give them.
abbrev pub joined : List (List ℕ) → List ℕ
joined [] = []
joined (cs ∷ pieces) = cs ++ joined pieces

abbrev pub arrivals : List (List ℕ) → List RecvAnswer → List RecvAnswer
arrivals [] later = later
arrivals (cs ∷ pieces) later = chunk cs ∷ arrivals pieces later

-- No piece is empty.
abbrev pub AllNonempty : List (List ℕ) → Type 0
AllNonempty [] = Unit {0}
AllNonempty (cs ∷ pieces) = (cs ≢ []) × AllNonempty pieces

recv_n_stop :
    (answers : List RecvAnswer) (got : List ℕ)
    → recv_n answers 0 got ≡ some (record { bytes = got; failure = false; unread = answers })
unfolding recv_n
recv_n_stop [] got = refl
recv_n_stop (idle ∷ answers) got = refl
recv_n_stop (closed ∷ answers) got = refl
recv_n_stop (failed ∷ answers) got = refl
recv_n_stop (chunk cs ∷ answers) got = refl

pub length_pos : (cs : List ℕ) → cs ≢ [] → 0 < length cs
length_pos [] h = absurd (h refl)
length_pos (c ∷ cs) h = omega arith

pub recv_n_pieces :
    (pieces : List (List ℕ)) (later : List RecvAnswer) (left : ℕ) (got : List ℕ)
    → AllNonempty pieces
    → left ≡ length (joined pieces)
    → left < 18446744073709551616
    → recv_n (arrivals pieces later) left got
      ≡ some (record { bytes = got ++ joined pieces; failure = false; unread = later })
unfolding recv_n
recv_n_pieces [] later left got n e small = ground (arith, e, recv_n_stop later got, append-nil got)
recv_n_pieces (cs ∷ pieces) later left got n e small =
    let rest =
      recv_n_pieces pieces later (length (joined pieces)) (got ++ cs) n.1 refl
        (omega (arith, e, small, length-append cs (joined pieces))) in
    let left' : ((left + 18446744073709551616 - length cs) % 18446744073709551616
        ≡ length (joined pieces)) =
      omega (arith, e, small, length-append cs (joined pieces)) in
    ground (
      arith,
      e,
      rest,
      left',
      length_pos cs n.0,
      length-append cs (joined pieces),
      append_assoc got cs (joined pieces),
    )
