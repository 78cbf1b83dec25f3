-- ===== src/Post/Records/Answers.antt =====
-- `postDBRecord` of handler/HandleMessage.cpp: one message for each row, and the one that ends them.
use teachserver.Base.{
  ℕ, ◌+◌, ◌≡◌, ◌≤◌, refl, sym, ◌∙◌, some, List, [], ◌∷◌, ◌++◌, arith, All, length, append_assoc,
  append-nil,
}
use teachserver.Protocol.{msg_head_len}
use teachserver.Single.{Single, block, reset, pool_free}
use teachserver.Single.Clean.{
  IsApart, IsClean, SameMemory, SameMemory-trans, IsClean-SameMemory, IsApart-SameMemory,
}
use teachserver.Layout.{Field, put_fields, size_of}
use teachserver.Layout.Reads.{
  Holds, IsFit, IsFit-IsClean, put_fields_fit, Holds-agree, put_fields-Holds,
}
use teachserver.Post.Students.{Round, Carries, Carries-same, block_same}
use teachserver.Post.Records.{send_record, send_all}
use teachserver.Post.Records.Sent.{sent, Round-sent, send_record-sent}

-- A queued message to a client: its receiver, its length and type, and the fields in its body.
pub record IsAnswer (s : Single) (fd t q : ℕ) (fields : List Field) : Type 0 where
  pub receiver : (s.bufs q).fd ≡ fd
  pub used : (s.bufs q).used ≡ msg_head_len + size_of fields
  pub c_len : (block q s).c_len ≡ msg_head_len + size_of fields
  pub c_type : (block q s).c_type ≡ t
  pub holds : Holds (block q s).body 0 fields

-- One message for each row, with numbers that rise as types.
abbrev pub Answered : Single → ℕ → ℕ → List ℕ → List (List Field) → Type 0
Answered s fd t [] [] = Unit {0}
Answered s fd t (q ∷ qs) (fields ∷ rows) = IsAnswer s fd t q fields × Answered s fd (t + 1) qs rows
Answered s fd t _ _ = ⊥

-- A row whose fields fit their places, and which fits a buffer.
abbrev pub IsSendable : List Field → Type 0
IsSendable fields = All IsFit fields × (msg_head_len + size_of fields ≤ 5120)

pub IsAnswer-Carries :
    (s : Single) (fd t q : ℕ) (fields : List Field) (stack bytes : ℕ → ℕ)
    → All IsFit fields
    → put_fields stack 0 fields ≡ some bytes
    → Carries s q fd (msg_head_len + size_of fields) t bytes
    → IsAnswer s fd t q fields
IsAnswer-Carries s fd t q fields stack bytes fit e c = record {
  receiver = c.receiver;
  used = c.used;
  c_len = c.c_len;
  c_type = c.c_type;
  holds =
      Holds-agree bytes (block q s).body 0 fields (λ i lt. c.bytes i (omega (arith, lt)))
        (put_fields-Holds stack bytes 0 fields (IsFit-IsClean fields fit) e);
}

-- What the loop over the rows leaves.
pub record Batch (fd t : ℕ) (rows : List (List Field)) (qs rest : List ℕ) (s s' : Single)
    : Type 0 where
  pub bufpool : s'.bufpool ≡ rest
  pub sendqueue : s'.sendqueue ≡ s.sendqueue ++ qs
  pub recvqueue : s'.recvqueue ≡ s.recvqueue
  pub memory : SameMemory s.bufs s'.bufs
  pub answers : Answered s' fd t qs rows
  pub other_bufs : (r : ℕ) → IsApart s.bufs r qs → s'.bufs r ≡ s.bufs r
  pub other_blocks :
      (r : ℕ) → IsApart s.bufs r qs → s'.blocks (s.bufs r).ptr ≡ s.blocks (s.bufs r).ptr

module _ (fd t q len : ℕ) (later qs rest : List ℕ) (rows : List (List Field)) (bytes : ℕ → ℕ)
    (s s1 s' : Single) (o : Round len t fd q later bytes s s1)
    (b : Batch fd (t + 1) rows qs rest s1 s') where
  lift : (r : ℕ) → IsApart s.bufs r qs → IsApart s1.bufs r qs
  lift r = IsApart-SameMemory s.bufs s1.bufs r qs o.memory

  -- The first message is as it was sent after the other ones.
  first_kept : IsApart s.bufs q qs → Carries s' q fd len t bytes
  first_kept aq =
      let same = b.other_bufs q (lift q aq) in
      Carries-same q fd len t bytes s1 s' same
        (block_same q s1 s' same (b.other_blocks q (lift q aq))) o.copy

  Batch-step :
      (fields : List Field)
      → IsAnswer s' fd t q fields
      → Batch fd t (fields ∷ rows) (q ∷ qs) rest s s'
  Batch-step fields first = record {
    bufpool = b.bufpool;
    sendqueue = b.sendqueue ∙ rw o.sendqueue (append_assoc s.sendqueue (q ∷ []) qs);
    recvqueue = b.recvqueue ∙ o.recvqueue;
    memory = SameMemory-trans o.memory b.memory;
    answers = (first, b.answers);
    other_bufs = λ r h. b.other_bufs r (lift r h.2) ∙ o.other_bufs r h.0;
    other_blocks = λ r h.
        ground (
          arith,
          o.memory.ptrs r,
          b.other_blocks r (lift r h.2),
          o.other_blocks (s.bufs r).ptr h.1,
        );
  }

send_all_step :
    (stack : ℕ → ℕ) (fd t : ℕ) (fields : List Field) (rows : List (List Field)) (s s1 : Single)
    → send_record stack fd t fields s ≡ some s1
    → send_all stack fd t (fields ∷ rows) s ≡ send_all stack fd (t + 1) rows s1
unfolding send_all
send_all_step stack fd t fields rows s s1 e = ground (arith, e)

send_all_nil : (stack : ℕ → ℕ) (fd t : ℕ) (s : Single) → send_all stack fd t [] s ≡ some s
unfolding send_all
send_all_nil stack fd t s = refl

pub send_all-answers :
    (stack : ℕ → ℕ) (fd t : ℕ) (rows : List (List Field)) (qs rest : List ℕ) (s : Single)
    → s.bufpool ≡ qs ++ rest
    → length qs ≡ length rows
    → IsClean s.bufs qs
    → All IsSendable rows
    → (s' : Single) × (send_all stack fd t rows s ≡ some s') × Batch fd t rows qs rest s s'
send_all-answers stack fd t [] [] rest s e n clean fit = (
  s,
  send_all_nil stack fd t s,
  record {
    bufpool = e;
    sendqueue = sym (append-nil s.sendqueue);
    recvqueue = refl;
    memory = record { ptrs = λ q. refl; sizes = λ q. refl };
    answers = tt;
    other_bufs = λ r h. refl;
    other_blocks = λ r h. refl;
  },
)
send_all-answers stack fd t [] (q ∷ qs) rest s e n clean fit = absurd (omega arith)
send_all-answers stack fd t (fs ∷ rows) [] rest s e n clean fit = absurd (omega arith)
send_all-answers stack fd t (fs ∷ rows) (q ∷ qs) rest s e n clean fit =
    let len = msg_head_len + size_of fs in
    let (bytes, filled) = put_fields_fit stack 0 fs fit.0.0 in
    let s1 = sent q len t (qs ++ rest) s fd (size_of fs) bytes in
    let o : Round len t fd q (qs ++ rest) bytes s s1 =
      Round-sent q t fd (size_of fs) (qs ++ rest) s bytes in
    let (s', run, b) =
      send_all-answers stack fd (t + 1) rows qs rest s1 o.bufpool (omega arith)
        (IsClean-SameMemory s.bufs s1.bufs qs o.memory clean.3) fit.1 in
    let step =
      send_record-sent stack fd t fs s q (qs ++ rest) bytes filled e clean.0 clean.1 fit.0.1 in
    let first = first_kept fd t q len (qs ++ rest) qs rest rows bytes s s1 s' o b clean.2 in
    (
      s',
      send_all_step stack fd t fs rows s s1 step ∙ run,
      Batch-step fd t q len (qs ++ rest) qs rest rows bytes s s1 s' o b fs
          (IsAnswer-Carries s' fd t q fs stack bytes fit.0.0 filled first),
    )

-- A buffer that two states agree on, with its memory.
abbrev pub IsKept : Single → Single → ℕ → Type 0
IsKept s s' q = (s'.bufs q ≡ s.bufs q) × (block q s' ≡ block q s)

pub IsAnswer-kept :
    (s s' : Single) (fd t q : ℕ) (fields : List Field)
    → IsKept s s' q
    → IsAnswer s fd t q fields
    → IsAnswer s' fd t q fields
IsAnswer-kept s s' fd t q fields k a = record {
  receiver = rw k.0 a.receiver;
  used = rw k.0 a.used;
  c_len = rw k.1 a.c_len;
  c_type = rw k.1 a.c_type;
  holds = rw k.1 a.holds;
}

pub Answered-kept :
    (s s' : Single) (fd t : ℕ) (qs : List ℕ) (rows : List (List Field))
    → All (IsKept s s') qs
    → Answered s fd t qs rows
    → Answered s' fd t qs rows
Answered-kept s s' fd t [] [] k a = tt
Answered-kept s s' fd t [] (fields ∷ rows) k a = absurd a
Answered-kept s s' fd t (q ∷ qs) [] k a = absurd a
Answered-kept s s' fd t (q ∷ qs) (fields ∷ rows) k a =
    (IsAnswer-kept s s' fd t q fields k.0 a.0, Answered-kept s s' fd (t + 1) qs rows k.1 a.1)

-- Buffers that lie apart from one are kept when that one is sent, or cleared.
pub IsKept-apart :
    (len t fd p : ℕ) (later : List ℕ) (bytes : ℕ → ℕ) (s s' : Single) (qs : List ℕ)
    → Round len t fd p later bytes s s'
    → IsApart s.bufs p qs
    → All (IsKept s s') qs
IsKept-apart len t fd p later bytes s s' [] o h = tt
IsKept-apart len t fd p later bytes s s' (q ∷ qs) o h =
    let same = o.other_bufs q (λ e. h.0 (sym e)) in
    (
      (same, block_same q s s' same (o.other_blocks (s.bufs q).ptr (λ e. h.1 (sym e)))),
      IsKept-apart len t fd p later bytes s s' qs o h.2,
    )

pub IsKept-freed :
    (p : ℕ) (s : Single) (qs : List ℕ)
    → IsApart s.bufs p qs
    → All (IsKept s (pool_free p (reset p s))) qs
unfolding pool_free reset
IsKept-freed p s [] h = tt
IsKept-freed p s (q ∷ qs) h = ((refl, ground (arith, h.1)), IsKept-freed p s qs h.2)
