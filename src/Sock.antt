-- ===== src/Sock.antt =====
-- Sock.c: the calls that send or receive a number of bytes, besides `recv_n`. What `select`, `send` and
-- `recv` return, and what `errno` holds after a call, are parameters.
pub mod Whole
use teachserver.Base.{
  ℕ, ◌+◌, ◌-◌, ◌%◌, Bool, true, false, Option, none, some, List, [], ◌∷◌, ◌++◌, ◌==◌, if◌then◌else◌,
  ltb, length,
}

-- What `recv` returned: bytes, 0 or -1; and whether `errno` is EAGAIN after it.
pub data RecvCall : Type 0 where
  got : List ℕ → Bool → RecvCall
  got_end : Bool → RecvCall
  got_error : Bool → RecvCall

-- The bytes that count, and whether the result is -1.
pub record Taken : Type 0 where
  pub bytes : List ℕ
  pub failure : Bool

-- `int len` and `int recved` or `int sended`: whether the new count, and so the number that one call
-- gave, is an int.
abbrev pub int_max : ℕ
int_max = 2147483647

-- A call after which `errno` is EAGAIN is repeated, whatever it returned. None where the answers end
-- before the loop does, and where a count leaves the int, after which C gives it no value.
unfoldable pub recv_v : List RecvCall → ℕ → List ℕ → Option Taken
recv_v [] left sofar = if left == 0 then some (record { bytes = sofar; failure = false }) else none
recv_v (got cs again ∷ calls) left sofar =
    let repeated = recv_v calls left sofar in
    let rest =
      recv_v calls ((left + 18446744073709551616 - length cs) % 18446744073709551616)
        (sofar ++ cs) in
    if left == 0
    then some (record { bytes = sofar; failure = false })
    else if again
    then repeated
    else if ltb int_max (length sofar + length cs)
    then none
    else rest
recv_v (got_end again ∷ calls) left sofar =
    let repeated = recv_v calls left sofar in
    if left == 0
    then some (record { bytes = sofar; failure = false })
    else if again
    then repeated
    else some (record { bytes = sofar; failure = false })
recv_v (got_error again ∷ calls) left sofar =
    let repeated = recv_v calls left sofar in
    if left == 0
    then some (record { bytes = sofar; failure = false })
    else if again
    then repeated
    else some (record { bytes = sofar; failure = true })

-- What a round of `send_n` or `send_v` met: `select` ran out of time or failed, which only `send_n`
-- asks; `send` took n bytes, 0 or failed; and whether `errno` is EAGAIN after it.
pub data SendCall : Type 0 where
  not_ready : SendCall
  put : ℕ → Bool → SendCall
  put_error : Bool → SendCall

-- What went out, and the returned number, none for -1.
pub record Put : Type 0 where
  pub sent : ℕ
  pub result : Option ℕ

-- The returned number is 0 also where all bytes went out.
unfoldable pub send_n : List SendCall → ℕ → ℕ → Option Put
send_n [] left sent = if left == 0 then some (record { sent = sent; result = some 0 }) else none
send_n (not_ready ∷ calls) left sent = some (record { sent = sent; result = some 0 })
send_n (put n again ∷ calls) left sent =
    let rest = send_n calls ((left + 18446744073709551616 - n) % 18446744073709551616) (sent + n) in
    if left == 0
    then some (record { sent = sent; result = some 0 })
    else if n == 0
    then some (record { sent = sent; result = some 0 })
    else rest
send_n (put_error again ∷ calls) left sent =
    if left == 0
    then some (record { sent = sent; result = some 0 })
    else some (record { sent = sent; result = none })

-- As `recv_v` with EAGAIN and the int.
unfoldable pub send_v : List SendCall → ℕ → ℕ → Option Put
send_v [] left sent = if left == 0 then some (record { sent = sent; result = some sent }) else none
send_v (not_ready ∷ calls) left sent = send_v calls left sent
send_v (put n again ∷ calls) left sent =
    let repeated = send_v calls left sent in
    let rest = send_v calls ((left + 18446744073709551616 - n) % 18446744073709551616) (sent + n) in
    if left == 0
    then some (record { sent = sent; result = some sent })
    else if again
    then repeated
    else if n == 0
    then some (record { sent = sent; result = some sent })
    else if ltb int_max (sent + n)
    then none
    else rest
send_v (put_error again ∷ calls) left sent =
    let repeated = send_v calls left sent in
    if left == 0
    then some (record { sent = sent; result = some sent })
    else if again
    then repeated
    else some (record { sent = sent; result = none })
