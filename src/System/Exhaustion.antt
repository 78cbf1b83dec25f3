-- ===== src/System/Exhaustion.antt =====
-- Evloop.cpp: each connection that ends takes a buffer with it, so that the pool runs dry.
use teachserver.Base.{
  ℕ, ◌+◌, Bool, true, ◌≤◌, ◌<◌, ◌≡◌, inl, inr, Bool-cases, false, none, some, Option-cases, List,
  [], ◌∷◌, ◌++◌, arith, length, length-append, All, ◌==◌,
}
use teachserver.QueueT.{enqueue, dequeue}
use teachserver.StdMap.{StdMap}
use teachserver.Single.{Single, null, block, pool_malloc, pool_free, reset}
use teachserver.Manager
use teachserver.Server.{Server}
use teachserver.Handler.Forward.{Handler}
use teachserver.SendTask.{SendAnswer, Sent, send_step, write_loop, byte_at, bytes_left}
use teachserver.SendTask.Delivery.{List-cases}
use teachserver.Evloop.{
  Loop, RecvAnswer, closed, recv_n, returned, store, close_fd, recv_cb, accept_cb,
}
use teachserver.System.{System, Event, accepts, arrives, sends, step, run}
use teachserver.Single.Spare.{spare, spare-pool_malloc}
use teachserver.Manager.Spare.{spare-del_client}

spare-close_fd :
    (fd : ℕ) (l l' : Loop) (w w' : Server)
    → close_fd fd l w ≡ some (l', w')
    → spare w'.single ≤ spare w.single
unfolding close_fd
spare-close_fd fd l l' w w' h = elim (Option-cases (Manager.del_client fd w.room_map w.single)) [
  | inl e ↦ ground (arith, e)
  | inr ((rooms, s), e) ↦ ground (arith, e, spare-del_client fd w.room_map rooms w.single s e)
]

spare-store :
    (p o : ℕ) (cs : List ℕ) (w w' : Server)
    → store p o cs w ≡ some w'
    → spare w'.single ≡ spare w.single
unfolding store spare
spare-store p o cs w w' h = ground (arith, h)

spare-recv_cb :
    (fd now : ℕ) (later : List RecvAnswer) (l l' : Loop) (w w' : Server)
    → recv_cb fd now (closed ∷ later) l w ≡ some (l', w')
    → spare w'.single + 1 ≤ spare w.single
unfolding recv_cb recv_n returned
spare-recv_cb fd now later l l' w w' h =
    let (p, s) = pool_malloc w.single in
    elim (Bool-cases (p == null)) [
      | inl e ↦ ground (arith, e)
      | inr some_p ↦ elim (Option-cases (store p 0 [] (record w { single = s }))) [
        | inl e ↦ ground (arith, some_p, e)
        | inr (w1, e) ↦
            let closing : (close_fd fd l w1 ≡ some (l', w')) = ground (arith, some_p, e, h) in
            omega (
              arith,
              spare-close_fd fd l l' w1 w' closing,
              spare-store p 0 [] (record w { single = s }) w1 e,
              spare-pool_malloc w.single (ground (arith, some_p)),
            )
      ]
    ]

spare-sent :
    (answers : List SendAnswer) (s s' : Single) (out : List Sent) (p : ℕ) (rest : List ℕ)
    → s.sendqueue ≡ p ∷ rest
    → send_step answers s ≡ some (out, s')
    → spare s' ≤ spare s
unfolding send_step dequeue spare pool_free reset enqueue
spare-sent answers s s' out p rest e h =
    let n : (length (s.bufpool ++ p ∷ []) ≡ length s.bufpool + 1) =
      ground (arith, length-append s.bufpool (p ∷ [])) in
    elim (Option-cases (write_loop answers (byte_at (block p s)) 0 (bytes_left (s.bufs p).used))) [
      | inl e2 ↦ ground (arith, e, e2, n)
      | inr (k, e2) ↦ ground (arith, e, e2, n)
    ]

spare-send_step :
    (answers : List SendAnswer) (s s' : Single) (out : List Sent)
    → send_step answers s ≡ some (out, s')
    → spare s' ≤ spare s
unfolding send_step dequeue
spare-send_step answers s s' out h = elim (List-cases s.sendqueue) [
  | inl e ↦ ground (arith, e, h)
  | inr (p, rest, e) ↦ spare-sent answers s s' out p rest e h
]

-- A connection comes, a message is sent, or a connection ends between two messages.
abbrev pub is_idle : Event → Bool
is_idle (accepts fd now) = true
is_idle (sends answers) = true
is_idle (arrives fd now (closed ∷ later)) = true
is_idle e = false

-- How many connections end.
abbrev pub ends : List Event → ℕ
ends [] = 0
ends (arrives fd now answers ∷ events) = 1 + ends events
ends (e ∷ events) = ends events

spare-step :
    (m : StdMap Handler) (e : Event) (events : List Event) (s t : System) (out : List Sent)
    → is_idle e ≡ true
    → step m e s ≡ some (out, t)
    → spare t.server.single + ends (e ∷ events) ≤ spare s.server.single + ends events
unfolding step
spare-step m (accepts fd now) events s t out i h = elim (Option-cases (accept_cb fd now s.loop)) [
  | inl e ↦ ground (arith, e)
  | inr (l, e) ↦ ground (arith, e, h)
]
spare-step m (arrives fd now (closed ∷ later)) events s t out i h =
    elim (Option-cases (recv_cb fd now (closed ∷ later) s.loop s.server)) [
      | inl e ↦ ground (arith, e)
      | inr ((l, w), e) ↦ ground (arith, e, h, spare-recv_cb fd now later s.loop l s.server w e)
    ]
spare-step m (sends answers) events s t out i h =
    elim (Option-cases (send_step answers s.server.single)) [
      | inl e ↦ ground (arith, e)
      | inr ((sent, single), e) ↦
          ground (arith, e, h, spare-send_step answers s.server.single single sent e)
    ]
spare-step m e events s t out i h = cc

-- However many buffers are left in the pool and in the send queue, and whatever is sent and whoever
-- connects in the meantime: more connections that end, each between two messages as every client's
-- does, than there are such buffers, and the run does not come to its end: the server has aborted
-- or faulted, or a call of `send` was left without an answer.
pub run-exhausts :
    (m : StdMap Handler) (events : List Event) (s : System)
    → All (λ e. is_idle e ≡ true) events
    → length s.server.single.bufpool + length s.server.single.sendqueue < ends events
    → run m events s ≡ none
unfolding run spare
run-exhausts m [] s i few = absurd (omega (arith, few))
run-exhausts m (e ∷ events) s i few = elim (Option-cases (step m e s)) [
  | inl stopped ↦ ground (arith, stopped)
  | inr ((out, t), on) ↦
      let less = spare-step m e events s t out i.0 on in
      ground (arith, on, run-exhausts m events t i.1 (omega (arith, few, less)))
]
