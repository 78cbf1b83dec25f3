-- ===== src/Evloop/Message.antt =====
-- Evloop.cpp: `recv_cb` as a whole, for a message that arrives.
use teachserver.Base.{
  ℕ, ◌+◌, ◌-◌, ◌≤◌, ◌<◌, ◌≡◌, ◌≢◌, refl, ap, ◌∙◌, false, some, List, [], ◌∷◌, ◌++◌, arith, length,
  get_u32, ltb, if◌then◌else◌, update,
}
use teachserver.Single.{Block, null, block, get_fd, pool_malloc, set_fd, recv_enqueue}
use teachserver.Room.Score.{as_bytes}
use teachserver.Server.{Server, with_single}
use teachserver.Evloop.{
  Loop, RecvAnswer, Received, recv_n, returned, store, body_length, recv_body, recv_cb,
}
use teachserver.Evloop.Receive.{joined, arrivals, AllNonempty, recv_n_pieces}
use teachserver.Evloop.Decode.{
  stored, store_fits, both, first_len, both_len, both_type, both_body, body_length_of,
}

-- The state after the buffer went into the receive queue.
abbrev queued : ℕ → ℕ → Server → Server
queued p fd w = with_single (λ s. recv_enqueue p (set_fd p fd s)) w

block-queued : (p fd : ℕ) (w : Server) → block p (queued p fd w).single ≡ block p w.single
unfolding recv_enqueue set_fd
block-queued p fd w = ground arith

get_fd-queued : (p fd : ℕ) (w : Server) → get_fd p (queued p fd w).single ≡ fd
unfolding recv_enqueue set_fd
get_fd-queued p fd w = ground arith

ptr-queued : (p fd : ℕ) (w : Server) → ((queued p fd w).single.bufs p).ptr ≡ (w.single.bufs p).ptr
unfolding recv_enqueue set_fd
ptr-queued p fd w = ground arith

abbrev seen : ℕ → ℕ → Loop → Loop
seen fd now l = record l { lasttime = update l.lasttime fd now }

recv_body_run :
    (p fd now : ℕ) (answers : List RecvAnswer) (l : Loop) (w w' : Server) (rest : Received)
    → recv_n answers (body_length (block p w.single).c_len) [] ≡ some rest
    → store p 4 rest.bytes w ≡ some w'
    → body_length (block p w'.single).c_len ≡ returned rest
    → recv_body p fd now answers l w ≡ some (seen fd now l, queued p fd w')
unfolding recv_body
recv_body_run p fd now answers l w w' rest e1 e2 e3 = ground arith

pub recv_cb_run :
    (p fd now : ℕ) (pool : List ℕ) (answers : List RecvAnswer) (l : Loop) (w w' : Server)
    (head : Received)
    → w.single.bufpool ≡ p ∷ pool
    → p ≢ null
    → recv_n answers 4 [] ≡ some head
    → store p 0 head.bytes (record w { single = record w.single { bufpool = pool } }) ≡ some w'
    → returned head ≡ 4
    → recv_cb fd now answers l w ≡ recv_body p fd now head.unread l w'
unfolding recv_cb pool_malloc
recv_cb_run p fd now pool answers l w w' head e nn e1 e2 e3 = ground arith

-- A message that arrives in pieces of any size but 0, the four bytes of its length first, with the
-- right length in them, which is at least 8, at most the size of the buffer and below 2^31, ends in
-- the first buffer of the pool, with the bytes at their places, and that buffer is the last in the
-- receive queue, under the descriptor of the connection; the rooms and the send queue stay.
pub recv_cb-decodes :
    (fd now p : ℕ) (pool : List ℕ) (heads bodies : List (List ℕ)) (later : List RecvAnswer)
    (l : Loop) (w : Server)
    → w.single.bufpool ≡ p ∷ pool
    → p ≢ null
    → AllNonempty heads
    → AllNonempty bodies
    → length (joined heads) ≡ 4
    → get_u32 (as_bytes (joined heads)) 0 ≡ 4 + length (joined bodies)
    → 4 ≤ length (joined bodies)
    → 4 + length (joined bodies) ≤ (w.single.bufs p).size
    → 4 + length (joined bodies) < 2147483648
    → (w' : Server) × (recv_cb fd now (arrivals heads (arrivals bodies later)) l w
        ≡ some (record l { lasttime = update l.lasttime fd now }, w'))
      × (w'.single.recvqueue ≡ w.single.recvqueue ++ p ∷ [])
      × (w'.single.bufpool ≡ pool)
      × (w'.single.sendqueue ≡ w.single.sendqueue)
      × (get_fd p w'.single ≡ fd)
      × ((w'.single.bufs p).ptr ≡ (w.single.bufs p).ptr)
      × ((block p w'.single).c_len ≡ 4 + length (joined bodies))
      × ((block p w'.single).c_type ≡ get_u32 (as_bytes (joined bodies)) 0)
      × ((i : ℕ)
          → (block p w'.single).body i ≡ (
              if ltb (i + 4) (length (joined bodies))
              then as_bytes (joined bodies) (i + 4)
              else (block p w.single).body i))
      × (w'.room_map ≡ w.room_map)
unfolding recv_enqueue set_fd returned
recv_cb-decodes fd now p pool heads bodies later l w e nn hs bs four len long fits small =
    let h = joined heads in
    let b = joined bodies in
    let w1 = record w { single = record w.single { bufpool = pool } } in
    let got_head =
      recv_n_pieces heads (arrivals bodies later) 4 [] hs (omega (arith, four)) (omega arith) in
    let len1 = first_len p h b w1 (omega (arith, four)) ∙ len in
    let left =
      ap body_length len1 ∙ body_length_of (4 + length b) (omega arith) (omega (arith, small)) in
    let got_body = recv_n_pieces bodies later (length b) [] bs refl (omega (arith, small)) in
    let len2 = both_len p h b w1 (omega (arith, four)) in
    let n2 : ((block p (both p h b w1).single).c_len ≡ 4 + length b) =
      omega (arith, len2, len, small) in
    let same =
      ap body_length n2 ∙ body_length_of (4 + length b) (omega arith) (omega (arith, small)) in
    let sub : (4 + length b - 4 ≡ length b) = omega arith in
    let moved = block-queued p fd (both p h b w1) in
    let r : Received = record { bytes = b; failure = false; unread = later } in
    let body_run =
      recv_body_run p fd now (arrivals bodies later) l (stored p 0 h w1) (both p h b w1) r
        (ap (λ n. recv_n (arrivals bodies later) n []) (left ∙ sub) ∙ got_body)
        (store_fits p 4 b (stored p 0 h w1) (omega (arith, fits))) (same ∙ sub) in
    (
      queued p fd (both p h b w1),
      recv_cb_run p fd now pool _ l w (stored p 0 h w1)
            (record { bytes = h; failure = false; unread = arrivals bodies later }) e nn got_head
            (store_fits p 0 h w1 (omega (arith, four, fits))) four
          ∙ body_run,
      refl,
      refl,
      refl,
      get_fd-queued p fd (both p h b w1),
      ptr-queued p fd (both p h b w1),
      ap (λ (x : Block). x.c_len) moved ∙ n2,
      ap (λ (x : Block). x.c_type) moved ∙ both_type p h b w1 long,
      λ i. ap (λ (x : Block). x.body i) moved ∙ both_body p h b w1 i four,
      refl,
    )
