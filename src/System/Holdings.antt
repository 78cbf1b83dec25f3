-- ===== src/System/Holdings.antt =====
-- The buffers of the program, wherever they are, as a bag: what is kept of them while messages pass
-- through the event loop, the receive task and the send task.
use teachserver.Base.{
  ℕ, ◌+◌, ◌<◌, ◌≡◌, ◌≢◌, refl, sym, ap, ◌∙◌, true, some, List, [], ◌∷◌, ◌++◌, arith, count,
  count-append, ◌==◌, if◌then◌else◌, get_elem?, All-get_elem?, Option-cases, Bool-cases, inl, inr,
  Option,
}
use mathlib.Core.Quot
use mathlib.Core.Quot.{Quot, Quot-set}
use teachserver.StdMap.{StdMap}
use teachserver.Protocol.{CommandType, code}
use teachserver.QueueT.{enqueue}
use teachserver.Single.{Single, null, block, pool_malloc, set_fd, recv_enqueue}
use teachserver.Single.Ledger.{held, held-pool_malloc}
use teachserver.Manager
use teachserver.Server.{Server, Env, command}
use teachserver.Handler.Forward.{Handler}
use teachserver.Post.{post_teacher_to_white}
use teachserver.Post.White.{held-post_teacher_to_white}
use teachserver.Dispatch.{init_handlers, get_handler}
use teachserver.Dispatch.Work.{work_step}
use teachserver.Dispatch.Routes.{
  routes, IsRegistered, routes_registered, taken, work_step_found, forward_match,
}
use teachserver.SendTask.{SendAnswer, Sent, send_step}
use teachserver.SendTask.Delivery.{held-send_step}
use teachserver.Evloop.{
  Loop, RecvAnswer, recv_n, returned, body_length, store, close_fd, recv_body, recv_cb, accept_cb,
}
use teachserver.System.{System, accepts, arrives, handles, sends, step}

-- Two lists hold the same buffers, each as often.
abbrev pub SameBuffers : List ℕ → List ℕ → Type 0
SameBuffers xs ys = (q : ℕ) → count q xs ≡ count q ys

abbrev pub Bag : Type 0
Bag = Quot SameBuffers

-- The buffers of the pool and of both queues, in no order.
unfoldable pub holdings : Single → Bag
holdings s = Quot.mk (s.bufpool ++ s.recvqueue ++ s.sendqueue)

held-all : (q : ℕ) (s : Single) → count q (s.bufpool ++ s.recvqueue ++ s.sendqueue) ≡ held q s
unfolding held
held-all q s = omega (
  arith,
  count-append q (s.bufpool ++ s.recvqueue) s.sendqueue,
  count-append q s.bufpool s.recvqueue,
)

holdings_same : (s s' : Single) → ((q : ℕ) → held q s' ≡ held q s) → holdings s' ≡ holdings s
unfolding holdings
holdings_same s s' h = Quot.sound (λ q. held-all q s' ∙ h q ∙ sym (held-all q s))

-- A message of a listed type, whoever sent it.
work_step-held :
    (hn hi : Handler) (env : Env) (w : Server) (i p : ℕ) (rest : List ℕ) (ct st : CommandType)
    (q : ℕ)
    → get_elem? routes i ≡ some (ct, st)
    → w.single.recvqueue ≡ p ∷ rest
    → p ≢ null
    → (w.single.bufs p).ptr ≢ null
    → command p w ≡ code ct
    → (w' : Server) × (work_step (init_handlers hn hi) env w ≡ some (true, w'))
      × (held q w'.single ≡ held q w.single)
unfolding held
work_step-held hn hi env w i p rest ct st q route queue nn np type =
    let registered = All-get_elem? (IsRegistered hn hi) routes i (routes_registered hn hi) route in
    (
      (post_teacher_to_white p st (taken rest w)).1,
      work_step_found hn hi env w _ p rest _ queue nn np
          (ap (λ n. get_handler n (init_handlers hn hi)) type ∙ registered)
          (forward_match ct st p (taken rest w) nn type),
      omega (arith, held-post_teacher_to_white p st (taken rest w) q nn, ap (count q) queue),
    )

held-store :
    (q p o : ℕ) (cs : List ℕ) (w w' : Server)
    → store p o cs w ≡ some w'
    → held q w'.single ≡ held q w.single
unfolding store held
held-store q p o cs w w' h = ground (arith, h)

held-recv_enqueue :
    (q p fd : ℕ) (s : Single)
    → held q (recv_enqueue p (set_fd p fd s)) ≡ held q s + (if q == p then 1 else 0)
unfolding held recv_enqueue set_fd enqueue
held-recv_enqueue q p fd s = ground (arith, count-append q s.recvqueue (p ∷ []))

-- A callback that closes no connection, told by the count of clients.
close_fd-counts :
    (fd : ℕ) (l l' : Loop) (w w' : Server)
    → l.clientcount < 4294967296
    → close_fd fd l w ≡ some (l', w')
    → l'.clientcount ≢ l.clientcount
unfolding close_fd
close_fd-counts fd l l' w w' small h same =
    elim (Option-cases (Manager.del_client fd w.room_map w.single)) [
      | inl e ↦ ground (arith, e, h)
      | inr ((rooms, s), e) ↦ ground (arith, e, h, same, small)
    ]

module _ (fd now p q : ℕ) (l l' : Loop) (w' : Server) (small : l.clientcount < 4294967296)
    (stays : l'.clientcount ≡ l.clientcount) where
  recv_body-held :
      (answers : List RecvAnswer) (w : Server)
      → recv_body p fd now answers l w ≡ some (l', w')
      → held q w'.single ≡ held q w.single + (if q == p then 1 else 0)
  unfolding recv_body
  recv_body-held answers w h =
      elim (Option-cases (recv_n answers (body_length (block p w.single).c_len) [])) [
        | inl e ↦ ground (arith, e)
        | inr (rest, e) ↦ elim (Option-cases (store p 4 rest.bytes w)) [
          | inl e2 ↦ ground (arith, e, e2)
          | inr (w2, e2) ↦
              elim (Bool-cases (body_length (block p w2.single).c_len == returned rest)) [
                | inl e3 ↦
                    let same : (recv_enqueue p (set_fd p fd w2.single) ≡ w'.single) =
                      ground (arith, e, e2, e3, h) in
                    omega (
                      arith,
                      ap (held q) same,
                      held-recv_enqueue q p fd w2.single,
                      held-store q p 4 rest.bytes w w2 e2,
                    )
                | inr e3 ↦
                    absurd
                      (close_fd-counts fd l l' w2 w' small (ground (arith, e, e2, e3, h)) stays)
              ]
        ]
      ]

pool_malloc_empty : (s : Single) → s.bufpool ≡ [] → (pool_malloc s).0 ≡ null
unfolding pool_malloc
pool_malloc_empty s e = ground (arith, e)

recv_cb-held :
    (fd now q : ℕ) (answers : List RecvAnswer) (l l' : Loop) (w w' : Server)
    → l.clientcount < 4294967296
    → l'.clientcount ≡ l.clientcount
    → recv_cb fd now answers l w ≡ some (l', w')
    → held q w'.single ≡ held q w.single
unfolding recv_cb
recv_cb-held fd now q answers l l' w w' small stays h =
    let (p, s) = pool_malloc w.single in
    let w0 = record w { single = s } in
    elim (Bool-cases (p == null)) [
      | inl e ↦ ground (arith, e)
      | inr some_p ↦ elim (Option-cases (recv_n answers 4 [])) [
        | inl e ↦ ground (arith, some_p, e)
        | inr (first, e) ↦ elim (Option-cases (store p 0 first.bytes w0)) [
          | inl e2 ↦ ground (arith, some_p, e, e2)
          | inr (w2, e2) ↦ elim (Bool-cases (returned first == 4)) [
            | inl e3 ↦
                let body : (recv_body p fd now first.unread l w2 ≡ some (l', w')) =
                  ground (arith, some_p, e, e2, e3, h) in
                omega (
                  arith,
                  recv_body-held fd now p q l l' w' small stays first.unread w2 body,
                  held-store q p 0 first.bytes w0 w2 e2,
                  held-pool_malloc q w.single
                      (λ none_left. ground (arith, some_p, pool_malloc_empty w.single none_left)),
                )
            | inr e3 ↦
                absurd
                  (close_fd-counts fd l l' w2 w' small (ground (arith, some_p, e, e2, e3, h)) stays)
          ]
        ]
      ]
    ]

-- The runs in which messages only pass through: connections come; a message arrives and its
-- connection stays open; a message of a listed type is handled, whoever sent it; one is sent.
pub data Passing (hn hi : Handler) (s : System) : System → Type 0 where
  at_start : Passing hn hi s s
  connected :
      {t u : System} {out : List Sent} (fd : Option ℕ) (now : ℕ)
      → Passing hn hi s t
      → step (init_handlers hn hi) (accepts fd now) t ≡ some (out, u)
      → Passing hn hi s u
  arrived :
      {t u : System} {out : List Sent} (fd now : ℕ) (answers : List RecvAnswer)
      → Passing hn hi s t
      → t.loop.clientcount < 4294967296
      → u.loop.clientcount ≡ t.loop.clientcount
      → step (init_handlers hn hi) (arrives fd now answers) t ≡ some (out, u)
      → Passing hn hi s u
  handled :
      {t u : System} {out : List Sent} (env : Env) (i p : ℕ) (rest : List ℕ) (ct st : CommandType)
      → Passing hn hi s t
      → get_elem? routes i ≡ some (ct, st)
      → t.server.single.recvqueue ≡ p ∷ rest
      → p ≢ null
      → (t.server.single.bufs p).ptr ≢ null
      → command p t.server ≡ code ct
      → step (init_handlers hn hi) (handles env) t ≡ some (out, u)
      → Passing hn hi s u
  passed_on :
      {t u : System} {out : List Sent} (answers : List SendAnswer)
      → Passing hn hi s t
      → step (init_handlers hn hi) (sends answers) t ≡ some (out, u)
      → Passing hn hi s u

module _ (m : StdMap Handler) (t u : System) (out : List Sent) (q : ℕ) where
  connected-held :
      (fd : Option ℕ) (now : ℕ)
      → step m (accepts fd now) t ≡ some (out, u)
      → held q u.server.single ≡ held q t.server.single
  unfolding step
  connected-held fd now h = elim (Option-cases (accept_cb fd now t.loop)) [
    | inl e ↦ ground (arith, e)
    | inr (l, e) ↦ ground (arith, e, h)
  ]

  arrived-held :
      (fd now : ℕ) (answers : List RecvAnswer)
      → t.loop.clientcount < 4294967296
      → u.loop.clientcount ≡ t.loop.clientcount
      → step m (arrives fd now answers) t ≡ some (out, u)
      → held q u.server.single ≡ held q t.server.single
  unfolding step
  arrived-held fd now answers small stays h =
      elim (Option-cases (recv_cb fd now answers t.loop t.server)) [
        | inl e ↦ ground (arith, e)
        | inr ((l, w), e) ↦
            ground (arith, e, h, stays, recv_cb-held fd now q answers t.loop l t.server w small)
      ]

  handled-held :
      (env : Env) (w : Server)
      → work_step m env t.server ≡ some (true, w)
      → held q w.single ≡ held q t.server.single
      → step m (handles env) t ≡ some (out, u)
      → held q u.server.single ≡ held q t.server.single
  unfolding step
  handled-held env w ran same h = ground (arith, ran, same, h)

  passed_on-held :
      (answers : List SendAnswer)
      → step m (sends answers) t ≡ some (out, u)
      → held q u.server.single ≡ held q t.server.single
  unfolding step
  passed_on-held answers h = elim (Option-cases (send_step answers t.server.single)) [
    | inl e ↦ ground (arith, e)
    | inr ((sent, single), e) ↦
        ground (arith, e, h, held-send_step answers t.server.single single sent q e)
  ]

Passing-held :
    (hn hi : Handler) (s t : System) (q : ℕ)
    → Passing hn hi s t
    → held q t.server.single ≡ held q s.server.single
Passing-held hn hi s _ q at_start = refl
Passing-held hn hi s _ q (connected {t} {u} {out} fd now r h) =
    connected-held (init_handlers hn hi) t u out q fd now h ∙ Passing-held hn hi s t q r
Passing-held hn hi s _ q (arrived {t} {u} {out} fd now answers r small stays h) =
    arrived-held (init_handlers hn hi) t u out q fd now answers small stays h
    ∙ Passing-held hn hi s t q r
Passing-held hn hi s _ q (handled {t} {u} {out} env i p rest ct st r route queue nn np type h) =
    let (w, ran, same) =
      work_step-held hn hi env t.server i p rest ct st q route queue nn np type in
    handled-held (init_handlers hn hi) t u out q env w ran same h ∙ Passing-held hn hi s t q r
Passing-held hn hi s _ q (passed_on {t} {u} {out} answers r h) =
    passed_on-held (init_handlers hn hi) t u out q answers h ∙ Passing-held hn hi s t q r

-- In a run whose steps are only these, in whatever order they come and however many there are: a
-- connection comes; a message arrives whose connection stays open; a message under one of the listed
-- types is handled, whoever sent it; a round of the send task. Then the buffers of the pool and of
-- both queues are the same at its end as at its start, as a bag: of these buffers none is lost and
-- none comes twice. Messages of other types and connections that end are not among the steps.
pub Passing-holdings :
    (hn hi : Handler) (s t : System)
    → Passing hn hi s t
    → holdings t.server.single ≡ holdings s.server.single
Passing-holdings hn hi s t r =
    holdings_same s.server.single t.server.single (λ q. Passing-held hn hi s t q r)
