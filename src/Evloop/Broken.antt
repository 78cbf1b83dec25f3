-- ===== src/Evloop/Broken.antt =====
-- Evloop.cpp: `recv_cb` for a connection that ends inside a message.
use teachserver.Base.{
  ℕ, ◌+◌, ◌-◌, ◌%◌, ◌≤◌, ◌<◌, ◌≡◌, ◌≢◌, refl, ap, ◌∙◌, false, some, List, [], ◌∷◌, ◌++◌, arith,
  length, length-append, append_assoc, append-nil, get_u32,
}
use teachserver.Single.{null, block}
use teachserver.Single.Ledger.{held}
use teachserver.Room.Score.{as_bytes}
use teachserver.Server.{Server}
use teachserver.Evloop.{
  Loop, RecvAnswer, Received, closed, recv_n, returned, store, body_length, close_fd, recv_body,
  recv_cb,
}
use teachserver.Evloop.Receive.{joined, arrivals, AllNonempty, length_pos, recv_n_pieces}
use teachserver.Evloop.Decode.{stored, store_fits, both, first_len, both_len, body_length_of}
use teachserver.Evloop.Message.{recv_cb_run}

-- Pieces that are fewer bytes than asked for, before the end.
recv_n_short :
    (pieces : List (List ℕ)) (later : List RecvAnswer) (left : ℕ) (got : List ℕ)
    → AllNonempty pieces
    → length (joined pieces) < left
    → left < 18446744073709551616
    → recv_n (arrivals pieces (closed ∷ later)) left got
      ≡ some (record { bytes = got ++ joined pieces; failure = false; unread = later })
unfolding recv_n
recv_n_short [] later left got n e small = ground (arith, e, append-nil got)
recv_n_short (cs ∷ pieces) later left got n e small =
    let rest =
      recv_n_short pieces later (left - length cs) (got ++ cs) n.1
        (omega (arith, e, length-append cs (joined pieces))) (omega (arith, small)) in
    let left' : ((left + 18446744073709551616 - length cs) % 18446744073709551616
        ≡ left - length cs) =
      omega (arith, e, small, length-append cs (joined pieces)) in
    ground (arith, e, rest, left', length_pos cs n.0, append_assoc got cs (joined pieces))

recv_body_cut :
    (p fd now : ℕ) (answers : List RecvAnswer) (l : Loop) (w w' : Server) (rest : Received)
    → recv_n answers (body_length (block p w.single).c_len) [] ≡ some rest
    → store p 4 rest.bytes w ≡ some w'
    → body_length (block p w'.single).c_len ≢ returned rest
    → recv_body p fd now answers l w ≡ close_fd fd l w'
unfolding recv_body
recv_body_cut p fd now answers l w w' rest e1 e2 e3 = ground arith

-- A message whose length came whole, and whose connection ends before the announced number of bytes
-- came, has the connection closed, with the bytes that came in the first buffer of the pool; that
-- buffer stands once less in the pool and the queues, so that it is lost. The announced length is at
-- most the size of the buffer and below 2^31.
pub recv_cb-loses :
    (fd now p : ℕ) (pool : List ℕ) (heads bodies : List (List ℕ)) (later : List RecvAnswer)
    (l : Loop) (w : Server) (n : ℕ)
    → w.single.bufpool ≡ p ∷ pool
    → p ≢ null
    → AllNonempty heads
    → AllNonempty bodies
    → length (joined heads) ≡ 4
    → get_u32 (as_bytes (joined heads)) 0 ≡ 4 + n
    → length (joined bodies) < n
    → 4 + n ≤ (w.single.bufs p).size
    → 4 + n < 2147483648
    → (w' : Server) × (recv_cb fd now (arrivals heads (arrivals bodies (closed ∷ later))) l w
        ≡ close_fd fd l w')
      × (held p w.single ≡ 1 + held p w'.single)
      × (w'.single.bufpool ≡ pool)
      × (w'.single.recvqueue ≡ w.single.recvqueue)
      × (w'.single.sendqueue ≡ w.single.sendqueue)
      × (w'.room_map ≡ w.room_map)
unfolding returned held
recv_cb-loses fd now p pool heads bodies later l w n e nn hs bs four len short fits small =
    let h = joined heads in
    let b = joined bodies in
    let w1 = record w { single = record w.single { bufpool = pool } } in
    let got_head =
      recv_n_pieces heads (arrivals bodies (closed ∷ later)) 4 [] hs (omega (arith, four))
        (omega arith) in
    let len1 = first_len p h b w1 (omega (arith, four)) ∙ len in
    let left = ap body_length len1 ∙ body_length_of (4 + n) (omega arith) (omega (arith, small)) in
    let sub : (4 + n - 4 ≡ n) = omega arith in
    let got_body =
      recv_n_short bodies later n [] bs (omega (arith, short)) (omega (arith, small)) in
    let len2 = both_len p h b w1 (omega (arith, four)) in
    let n2 : ((block p (both p h b w1).single).c_len ≡ 4 + n) = omega (arith, len2, len, small) in
    let same = ap body_length n2 ∙ body_length_of (4 + n) (omega arith) (omega (arith, small)) in
    let r : Received = record { bytes = b; failure = false; unread = later } in
    let body_run =
      recv_body_cut p fd now (arrivals bodies (closed ∷ later)) l (stored p 0 h w1) (both p h b w1)
        r (ap (λ k. recv_n (arrivals bodies (closed ∷ later)) k []) (left ∙ sub) ∙ got_body)
        (store_fits p 4 b (stored p 0 h w1) (omega (arith, fits, short)))
        (λ eq. absurd (omega (arith, same, sub, eq, short))) in
    (
      both p h b w1,
      recv_cb_run p fd now pool _ l w (stored p 0 h w1)
            (record { bytes = h; failure = false; unread = arrivals bodies (closed ∷ later) }) e nn
            got_head (store_fits p 0 h w1 (omega (arith, four, fits))) four
          ∙ body_run,
      ground arith,
      refl,
      refl,
      refl,
      refl,
    )
