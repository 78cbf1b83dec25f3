-- ===== src/Post/Records/Whole.antt =====
-- `postDBRecord` of handler/HandleMessage.cpp as a whole, where the query answers.
use teachserver.Base.{
  ℕ, ◌+◌, ◌≡◌, ◌≢◌, ◌<◌, refl, sym, ap, ◌∙◌, some, List, [], ◌∷◌, ◌++◌, arith, All, length, put_u32,
}
use teachserver.Protocol.{msg_head_len, code}
use teachserver.Protocol.Command.{st_get_db_record_finished}
use teachserver.QueueT.{enqueue}
use teachserver.Single.{Single, null, get_fd, reset, pool_free}
use teachserver.Single.Clean.{IsApart, IsClean, IsApart-SameMemory, SameMemory, SameMemory-trans}
use teachserver.Layout.{Field, word, put_fields, size_of}
use teachserver.Server.{Server, Env}
use teachserver.Post.Students.{Round}
use teachserver.Post.Records.{
  DbCase, bound_names, record_rows, record_base, send_all, send_finished, finished_flag,
  post_db_record,
}
use teachserver.Post.Records.Sent.{Round-sent, send_finished-sent}
use teachserver.Post.Records.Answers.{
  IsAnswer, Answered, IsSendable, Batch, IsAnswer-Carries, IsAnswer-kept, Answered-kept,
  send_all-answers, IsKept-apart, IsKept-freed,
}

-- What the answer leaves: a message for each row and one that ends them, and the request freed.
pub record IsAnswered (p fd base flag last : ℕ) (qs rest : List ℕ) (rows : List (List Field))
    (w w' : Server) : Type 0 where
  pub sendqueue : w'.single.sendqueue ≡ w.single.sendqueue ++ qs ++ last ∷ []
  pub bufpool : w'.single.bufpool ≡ rest ++ p ∷ []
  pub recvqueue : w'.single.recvqueue ≡ w.single.recvqueue
  pub answers : Answered w'.single fd base qs rows
  pub ending : IsAnswer w'.single fd (code st_get_db_record_finished) last (word flag ∷ [])
  pub rooms : w'.room_map ≡ w.room_map

finished_flag-fits : (c : DbCase) → finished_flag c < 4294967296
finished_flag-fits c = ground arith

whole_run :
    (env : Env) (p : ℕ) (c : DbCase) (w : Server) (rows : List (List Field)) (s s' : Single)
    → p ≢ null
    → record_rows env.db c (bound_names c p w) ≡ some rows
    → send_all env.stack (get_fd p w.single) (record_base c) rows w.single ≡ some s
    → send_finished (finished_flag c) (get_fd p w.single) s ≡ some s'
    → post_db_record env p c w ≡ some (record w { single = pool_free p (reset p s') })
unfolding post_db_record
whole_run env p c w rows s s' nn er ea ef = ground arith

flag_written : (flag : ℕ) → put_fields (λ _. 0) 0 (word flag ∷ []) ≡ some (put_u32 (λ _. 0) 0 flag)
unfolding put_fields
flag_written flag = refl

module _ (p : ℕ) (s : Single) where
  freed_sendqueue : (pool_free p (reset p s)).sendqueue ≡ s.sendqueue
  unfolding pool_free reset
  freed_sendqueue = refl

  freed_recvqueue : (pool_free p (reset p s)).recvqueue ≡ s.recvqueue
  unfolding pool_free reset
  freed_recvqueue = refl

  freed_bufpool : (pool_free p (reset p s)).bufpool ≡ s.bufpool ++ p ∷ []
  unfolding pool_free reset enqueue
  freed_bufpool = refl

-- The ending message, behind those of the rows.
module _ (p fd base flag last : ℕ) (qs rest : List ℕ) (rows : List (List Field)) (w : Server)
    (s s' : Single) (b : Batch fd base rows qs (last ∷ rest) w.single s)
    (o : Round
      (msg_head_len + 4)
      (code st_get_db_record_finished)
      fd
      last
      rest
      (put_u32 (λ _. 0) 0 flag)
      s
      s') where
  ended :
      flag < 4294967296
      → IsApart w.single.bufs last qs
      → IsApart w.single.bufs p (last ∷ qs)
      → IsAnswered p fd base flag last qs rest rows w
          (record w { single = pool_free p (reset p s') })
  unfolding size_of
  ended small al far =
      let apart = IsApart-SameMemory w.single.bufs s'.bufs p (last ∷ qs) memory far in
      let kept = IsKept-freed p s' (last ∷ qs) apart in
      record {
        sendqueue = freed_sendqueue p s' ∙ rw b.sendqueue at o.sendqueue;
        bufpool = freed_bufpool p s' ∙ (ap (λ q. q ++ p ∷ []) o.bufpool);
        recvqueue = freed_recvqueue p s' ∙ (o.recvqueue ∙ b.recvqueue);
        answers = Answered-kept s' _ fd base qs rows kept.1 (
            Answered-kept s s' fd base qs rows
              (IsKept-apart _ _ fd last rest _ s s' qs o
                (IsApart-SameMemory w.single.bufs s.bufs last qs b.memory al))
              b.answers);
        ending =
            IsAnswer-kept s' _ fd (code st_get_db_record_finished) last (word flag ∷ []) kept.0 (
              IsAnswer-Carries s' fd (code st_get_db_record_finished) last (word flag ∷ []) (λ _. 0)
                (put_u32 (λ _. 0) 0 flag) (small, tt) (flag_written flag) o.copy);
        rooms = refl;
      }
    where
      memory : SameMemory w.single.bufs s'.bufs
      memory = SameMemory-trans b.memory o.memory

-- A request for the records of a table is answered, where the query gives rows: one message for each
-- row, in order, each to the client that asked, under the number of its case counted up from the first
-- row on, with the fields of the row where its structure has them; behind them the message that ends
-- the answer, with the flag of the case. Nothing else is sent, and the request's buffer goes back to
-- the pool. It is so where the pool starts with a usable buffer for each row and one more, and each
-- text of a row fits its array and has no NUL in it.
pub post_db_record-answers :
    (env : Env) (p : ℕ) (c : DbCase) (w : Server) (rows : List (List Field)) (qs rest : List ℕ)
    (last : ℕ)
    → p ≢ null
    → record_rows env.db c (bound_names c p w) ≡ some rows
    → All IsSendable rows
    → w.single.bufpool ≡ qs ++ last ∷ rest
    → length qs ≡ length rows
    → IsClean w.single.bufs (last ∷ qs)
    → IsApart w.single.bufs p (last ∷ qs)
    → (w' : Server) × (post_db_record env p c w ≡ some w')
      × IsAnswered p (get_fd p w.single) (record_base c) (finished_flag c) last qs rest rows w w'
post_db_record-answers env p c w rows qs rest last nn er fit pool n clean far =
    let fd = get_fd p w.single in
    let flag = finished_flag c in
    let (s, ran, b) =
      send_all-answers env.stack fd (record_base c) rows qs (last ∷ rest) w.single pool n clean.3
        fit in
    let done =
      send_finished-sent flag fd s last rest b.bufpool clean.0
        (sym (b.memory.sizes last) ∙ clean.1) in
    let bytes = put_u32 (λ _. 0) 0 flag in
    let o = Round-sent last (code st_get_db_record_finished) fd 4 rest s bytes in
    (
      _,
      whole_run env p c w rows s _ nn er ran done,
      ended p fd (record_base c) flag last qs rest rows w s _ b o (finished_flag-fits c) clean.2
          far,
    )
