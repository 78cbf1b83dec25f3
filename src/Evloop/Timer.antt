-- ===== src/Evloop/Timer.antt =====
-- Evloop.cpp: `time_cb`, which looks for connections that have been silent for more than ten seconds.
use teachserver.Base.{
  ℕ, zero, suc, ◌+◌, ◌≡◌, refl, Bool, List, [], ◌∷◌, ◌++◌, arith, count, count-append, ltb, ◌&&◌,
  if◌then◌else◌,
}
use teachserver.Evloop.{Loop, max_fd}

-- TIMEOUT
abbrev timeout : ℕ
timeout = 10

abbrev is_silent : ℕ → Loop → ℕ → Bool
is_silent now l fd = l.io fd && ltb (l.lasttime fd + timeout) now

-- The descriptors below a bound that the loop writes to the log.
unfoldable silent : ℕ → Loop → ℕ → List ℕ
silent now l zero = []
silent now l (suc n) = silent now l n ++ (if is_silent now l n then n ∷ [] else [])

-- What is logged, and the state after it: the call that would close them is commented out.
unfoldable time_cb : ℕ → Loop → List ℕ × Loop
unfolding silent
time_cb now l = (silent now l max_fd, l)

unfoldable get_client_count : Loop → ℕ
get_client_count l = l.clientcount

silent-count :
    (now fd n : ℕ) (l : Loop)
    → count fd (silent now l n) ≡ (if ltb fd n && is_silent now l fd then 1 else 0)
unfolding silent
silent-count now fd zero l = ground arith
silent-count now fd (suc n) l = ground (
  arith,
  silent-count now fd n l,
  count-append fd (silent now l n) (if is_silent now l n then n ∷ [] else []),
)

-- Each connection whose last message is more than ten seconds old is logged once, any other never,
-- and none is closed.
time_cb-logs :
    (now fd : ℕ) (l : Loop)
    → ((time_cb now l).1 ≡ l)
      × (count fd (time_cb now l).0 ≡ (if ltb fd max_fd && is_silent now l fd then 1 else 0))
unfolding time_cb
time_cb-logs now fd l = (refl, silent-count now fd max_fd l)
