-- ===== src/System/Relay.antt =====
-- A teacher's message from the bytes on the teacher's socket to the bytes on the whiteboard's.
use teachserver.Base.{
  ℕ, ◌+◌, ◌≤◌, ◌<◌, ◌≡◌, ◌≢◌, ap, sym, ◌∙◌, true, some, List, [], ◌∷◌, ◌++◌, arith, length, get_u32,
  get_elem?, update, if◌then◌else◌, ltb,
}
use mathlib.Core.Path.{subst}
use teachserver.Protocol.{CommandType, code}
use teachserver.Single.{Single, Block, null, block}
use teachserver.Room.{Room}
use teachserver.Room.Score.{as_bytes}
use teachserver.Manager
use teachserver.Server.{Server, Env, room_of}
use teachserver.Handler.Forward.{Handler}
use teachserver.Dispatch.{init_handlers}
use teachserver.Dispatch.Work.{work_step}
use teachserver.Dispatch.Routes.{routes, work_step-routes}
use teachserver.SendTask.{SendAnswer, Sent, byte_at, send_step}
use teachserver.SendTask.Delivery.{TakesAll, wire, length-memory_bytes, send_step-delivers}
use teachserver.Evloop.{Loop, RecvAnswer, recv_cb}
use teachserver.Evloop.Receive.{joined, arrivals, AllNonempty}
use teachserver.Evloop.Message.{recv_cb-decodes}
use teachserver.System.{System, Event, arrives, handles, sends, step, run}

-- What stands in the buffer when it waits for the whiteboard: the length and the payload as they
-- came, under the type `st`, and behind the payload what was there before.
pub record IsRelayed (st : CommandType) (b : List ℕ) (old x : Block) : Type 0 where
  pub len : x.c_len ≡ 4 + length b
  pub type : x.c_type ≡ code st
  pub payload :
      (i : ℕ) → x.body i ≡ (if ltb (i + 4) (length b) then as_bytes b (i + 4) else old.body i)

run_two :
    (hn hi : Handler) (e1 e2 : Event) (s s1 s2 : System)
    → step (init_handlers hn hi) e1 s ≡ some ([], s1)
    → step (init_handlers hn hi) e2 s1 ≡ some ([], s2)
    → run (init_handlers hn hi) (e1 ∷ e2 ∷ []) s ≡ some ([], s2)
unfolding run
run_two hn hi e1 e2 s s1 s2 h1 h2 = ground arith

run_three :
    (hn hi : Handler) (e1 e2 e3 : Event) (s s1 s2 s3 : System) (x : Sent)
    → step (init_handlers hn hi) e1 s ≡ some ([], s1)
    → step (init_handlers hn hi) e2 s1 ≡ some ([], s2)
    → step (init_handlers hn hi) e3 s2 ≡ some (x ∷ [], s3)
    → run (init_handlers hn hi) (e1 ∷ e2 ∷ e3 ∷ []) s ≡ some (x ∷ [], s3)
unfolding run
run_three hn hi e1 e2 e3 s s1 s2 s3 x h1 h2 h3 = ground arith

-- The three steps from what the three parts do.
step-arrives :
    (hn hi : Handler) (fd now : ℕ) (answers : List RecvAnswer) (s : System) (l : Loop) (w : Server)
    → recv_cb fd now answers s.loop s.server ≡ some (l, w)
    → step (init_handlers hn hi) (arrives fd now answers) s
      ≡ some ([], record { loop = l; server = w })
unfolding step
step-arrives hn hi fd now answers s l w h = ground arith

pub step-handles :
    (hn hi : Handler) (env : Env) (l : Loop) (w w' : Server)
    → work_step (init_handlers hn hi) env w ≡ some (true, w')
    → step (init_handlers hn hi) (handles env) (record { loop = l; server = w })
      ≡ some ([], record { loop = l; server = w' })
unfolding step
step-handles hn hi env l w w' h = ground arith

step-sends :
    (hn hi : Handler) (answers : List SendAnswer) (l : Loop) (w : Server) (out : List Sent)
    (single : Single)
    → send_step answers w.single ≡ some (out, single)
    → step (init_handlers hn hi) (sends answers) (record { loop = l; server = w })
      ≡ some (out, record { loop = l; server = record w { single = single } })
unfolding step
step-sends hn hi answers l w out single h = ground arith

-- From empty queues, a teacher's message under one of the listed types, whose bytes come in pieces of
-- any size but 0 with the right length in front, is sent to the whiteboard of the teacher's room by
-- one callback of the event loop, one round of the receive task and one of the send task: before
-- the last round the buffer holds the length and payload as they came under the type listed for the
-- whiteboard, and as many bytes of it are in use as came; the last round puts these bytes on the
-- whiteboard's socket, each once and in order, however the socket splits them, and nothing else is
-- sent. Then the buffer is the last in the pool, both queues
-- are empty, and the rooms are as before. The first buffer of the pool is not NULL and has memory,
-- the message takes at least 8 bytes, fits the buffer and is below 2^31, and the whiteboard's
-- descriptor is not 0.
pub run-relays :
    (hn hi : Handler) (fd now p : ℕ) (pool : List ℕ) (heads bodies : List (List ℕ)) (env : Env)
    (answers : List SendAnswer) (i : ℕ) (ct st : CommandType) (k : ℕ) (r : Room) (s : System)
    → s.server.single.bufpool ≡ p ∷ pool
    → s.server.single.recvqueue ≡ []
    → s.server.single.sendqueue ≡ []
    → p ≢ null
    → (s.server.single.bufs p).ptr ≢ null
    → AllNonempty heads
    → AllNonempty bodies
    → length (joined heads) ≡ 4
    → get_u32 (as_bytes (joined heads)) 0 ≡ 4 + length (joined bodies)
    → 4 ≤ length (joined bodies)
    → 4 + length (joined bodies) ≤ (s.server.single.bufs p).size
    → 4 + length (joined bodies) < 2147483648
    → get_u32 (as_bytes (joined bodies)) 0 ≡ code ct
    → get_elem? routes i ≡ some (ct, st)
    → Manager.get_room_by_fd fd s.server.room_map ≡ some (k, r)
    → r.teacher_fd ≡ fd
    → r.white_fd ≢ 0
    → TakesAll (4 + length (joined bodies)) answers
    → let arrival = arrives fd now (arrivals heads (arrivals bodies [])) in
      (before after : System) × (run (init_handlers hn hi) (arrival ∷ handles env ∷ []) s
        ≡ some ([], before))
      × IsRelayed st (joined bodies) (block p s.server.single) (block p before.server.single)
      × (length (wire p before.server.single) ≡ 4 + length (joined bodies))
      × (run (init_handlers hn hi) (arrival ∷ handles env ∷ sends answers ∷ []) s
          ≡ some (
            record { fd = r.white_fd; buf = p; bytes = wire p before.server.single } ∷ [],
            after,
          ))
      × (after.server.single.bufpool ≡ pool ++ p ∷ [])
      × (after.server.single.recvqueue ≡ [])
      × (after.server.single.sendqueue ≡ [])
      × (after.server.room_map ≡ s.server.room_map)
run-relays hn hi fd now p pool heads bodies env answers i ct st k r s e rq sq nn np hs bs four len
      long fits small type route room teacher white takes =
    let b = joined bodies in
    let (w1, received, rq1, pool1, sq1, fd1, ptr1, len1, type1, body1, rooms1) =
      recv_cb-decodes fd now p pool heads bodies [] s.loop s.server e nn hs bs four len long fits
        small in
    let found : (room_of p w1 ≡ some (k, r)) =
      ap (λ f. Manager.get_room_by_fd f w1.room_map) fd1
      ∙ ap (Manager.get_room_by_fd fd) rooms1
      ∙ room in
    let (w2, handled, rq2, sq2, fd2, block2, used2, pool2, rooms2) =
      work_step-routes hn hi env w1 i p [] ct st k r route (rq1 ∙ ap (λ q. q ++ p ∷ []) rq) nn
        (λ h. np (sym ptr1 ∙ h)) (type1 ∙ type) found (teacher ∙ sym fd1) in
    let size : ((w2.single.bufs p).used ≡ 4 + length b) = used2 ∙ len1 in
    let (single, sent, sq3, pool3, rq3, block3) =
      send_step-delivers answers w2.single p [] (sq2 ∙ ap (λ q. q ++ p ∷ []) (sq1 ∙ sq)) nn
        (λ h. white (sym fd2 ∙ h)) (omega (arith, size, small))
        (subst (λ n. TakesAll n answers) (sym size) takes) in
    let l = record s.loop { lasttime = update s.loop.lasttime fd now } in
    let before : System = record { loop = l; server = w2 } in
    let after : System = record { loop = l; server = record w2 { single = single } } in
    let s1 = step-arrives hn hi fd now _ s l w1 received in
    let s2 = step-handles hn hi env l w1 w2 handled in
    let note : ℕ → Sent = λ f. record { fd = f; buf = p; bytes = wire p w2.single } in
    (
      before,
      after,
      run_two hn hi _ _ s _ before s1 s2,
      record {
        len = ap (λ (x : Block). x.c_len) block2 ∙ len1;
        type = ap (λ (x : Block). x.c_type) block2;
        payload = λ i. ap (λ (x : Block). x.body i) block2 ∙ body1 i;
      },
      length-memory_bytes (byte_at (block p w2.single)) 0 (w2.single.bufs p).used ∙ size,
      run_three hn hi _ _ _ s _ before after _ s1 s2 (
          step-sends hn hi answers l w2 _ single (sent ∙ ap (λ f. some (note f ∷ [], single)) fd2)),
      pool3 ∙ ap (λ q. q ++ p ∷ []) (pool2 ∙ pool1),
      rq3 ∙ rq2,
      sq3,
      rooms2 ∙ rooms1,
    )
