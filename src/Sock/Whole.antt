-- ===== src/Sock/Whole.antt =====
-- Sock.c: `recv_v` against `recv_n`.
use teachserver.Base.{
  ℕ, ◌+◌, ◌-◌, ◌%◌, ◌≡◌, ◌≢◌, true, false, Option, none, some, List, [], ◌∷◌, ◌++◌, map, arith,
  length, length-append, ◌≤◌,
}
use teachserver.Evloop.{RecvAnswer, Received, chunk, closed, failed, recv_n}
use teachserver.Sock.{RecvCall, Taken, got, got_end, got_error, int_max, recv_v}

-- The same call as `recv_n` sees it when `select` finds the socket ready.
abbrev pub ready : RecvCall → RecvAnswer
ready (got cs again) = chunk cs
ready (got_end again) = closed
ready (got_error again) = failed

-- After no call, `errno` is EAGAIN.
abbrev pub IsQuiet : List RecvCall → Type 0
IsQuiet [] = Unit
IsQuiet (got cs again ∷ calls) = (again ≡ false) × IsQuiet calls
IsQuiet (got_end again ∷ calls) = (again ≡ false) × IsQuiet calls
IsQuiet (got_error again ∷ calls) = (again ≡ false) × IsQuiet calls

abbrev pub taken_of : Option Received → Option Taken
taken_of none = none
taken_of (some r) = some (record { bytes = r.bytes; failure = r.failure })

-- All the bytes that the calls give.
abbrev pub total : List RecvCall → ℕ
total [] = 0
total (got cs again ∷ calls) = length cs + total calls
total (got_end again ∷ calls) = total calls
total (got_error again ∷ calls) = total calls

-- On a socket that is always ready, never sets `errno` to EAGAIN and gives fewer than 2^31 bytes in
-- all, both ways of receiving give the same bytes and the same failure.
pub recv_v-recv_n :
    (calls : List RecvCall) (left : ℕ) (sofar : List ℕ)
    → IsQuiet calls
    → length sofar + total calls ≤ int_max
    → recv_v calls left sofar ≡ taken_of (recv_n (map ready calls) left sofar)
unfolding recv_v recv_n
recv_v-recv_n [] left sofar q small = ground arith
recv_v-recv_n (got cs again ∷ calls) left sofar q small =
    let more = length-append sofar cs in
    let rest = (left + 18446744073709551616 - length cs) % 18446744073709551616 in
    ground (arith, recv_v-recv_n calls rest (sofar ++ cs) q.1 (omega (arith, more, small)), small)
recv_v-recv_n (got_end again ∷ calls) left sofar q small = ground arith
recv_v-recv_n (got_error again ∷ calls) left sofar q small = ground arith

-- After every call, `errno` is EAGAIN.
abbrev pub IsStale : List RecvCall → Type 0
IsStale [] = Unit
IsStale (got cs again ∷ calls) = (again ≡ true) × IsStale calls
IsStale (got_end again ∷ calls) = (again ≡ true) × IsStale calls
IsStale (got_error again ∷ calls) = (again ≡ true) × IsStale calls

-- While `errno` is EAGAIN after each call, also from an earlier one, `recv_v` does not come to an end
-- as long as bytes are asked for, whatever `recv` delivers.
pub recv_v-spins :
    (calls : List RecvCall) (left : ℕ) (sofar : List ℕ)
    → left ≢ 0
    → IsStale calls
    → recv_v calls left sofar ≡ none
unfolding recv_v
recv_v-spins [] left sofar h q = ground arith
recv_v-spins (got cs again ∷ calls) left sofar h q =
    ground (arith, recv_v-spins calls left sofar h q.1)
recv_v-spins (got_end again ∷ calls) left sofar h q =
    ground (arith, recv_v-spins calls left sofar h q.1)
recv_v-spins (got_error again ∷ calls) left sofar h q =
    ground (arith, recv_v-spins calls left sofar h q.1)
