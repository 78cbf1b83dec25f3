-- ===== src/Post/Students.antt =====
-- `postTeacherToAllStudent` of handler/HandleMessage.cpp: one copy for each student, while the pool
-- has buffers.
pub mod Whole
use teachserver.Base.{
  ℕ, suc, ◌+◌, ◌-◌, ◌≡◌, ◌≢◌, ◌≤◌, ◌<◌, refl, sym, ap, ◌∙◌, Bool, true, false, Option, none, some,
  List, [], ◌∷◌, ◌++◌, ◌>>=◌, arith, ◌==◌, ltb, ◌&&◌, if◌then◌else◌, length, append_assoc,
  append-nil, copy_bytes,
}
use teachserver.StdMap.{StdMap, keys}
use teachserver.Protocol.{msg_head_len}
use teachserver.Single.{
  Single, Buf, Block, null, block, with_block, set_fd, set_size, set_len, set_type, write_data,
  pool_malloc, send_enqueue,
}
use teachserver.Single.Clean.{
  IsApart, IsClean, SameMemory, SameMemory-trans, IsClean-SameMemory, IsApart-SameMemory,
}
use teachserver.Student.{Student}
use teachserver.Post.{copy_payload, post_each}

-- A round of the loop where the pool has the buffer q: everything up to the queueing of it.
abbrev taken : List ℕ → Single → Single
taken qs s = record s { bufpool = qs }

-- A queued copy: its receiver and length, the head, and the payload of the original.
pub record Carries (s : Single) (q fd len t : ℕ) (payload : ℕ → ℕ) : Type 0 where
  pub receiver : (s.bufs q).fd ≡ fd
  pub used : (s.bufs q).used ≡ len
  pub c_len : (block q s).c_len ≡ len
  pub c_type : (block q s).c_type ≡ t
  pub bytes : (i : ℕ) → i < len - msg_head_len → (block q s).body i ≡ payload i

-- What a message in the buffer q, with that payload, leaves of the state, seen from outside.
pub record Round (len t fd q : ℕ) (qs : List ℕ) (payload : ℕ → ℕ) (s s' : Single) : Type 0 where
  pub bufpool : s'.bufpool ≡ qs
  pub sendqueue : s'.sendqueue ≡ s.sendqueue ++ q ∷ []
  pub recvqueue : s'.recvqueue ≡ s.recvqueue
  pub memory : SameMemory s.bufs s'.bufs
  pub copy : Carries s' q fd len t payload
  pub other_bufs : (r : ℕ) → r ≢ q → s'.bufs r ≡ s.bufs r
  pub other_blocks : (a : ℕ) → a ≢ (s.bufs q).ptr → s'.blocks a ≡ s.blocks a

module _ (p len t fd q : ℕ) (qs : List ℕ) (s : Single) where
  abbrev start : Single
  unfolding set_type set_len
  start = set_type q t (set_len q len (taken qs s))

  abbrev copied : Single
  copied =
      if ltb msg_head_len len
      then with_block q
          (record (block q start) {
            body = copy_bytes (len - msg_head_len) (block q start).body (block p start).body;
          })
          start
      else start

  abbrev after_copy : Single → Single
  after_copy c = send_enqueue q (set_fd q fd (set_size q len c))

  copy_payload-copied :
      (s.bufs q).size ≡ 5120 → len ≤ 5120 → copy_payload q p len start ≡ some copied
  unfolding copy_payload write_data set_type set_len
  copy_payload-copied size fits = ground arith

  Round-copied :
      (s.bufs p).ptr ≢ (s.bufs q).ptr → Round len t fd q qs (block p s).body s (after_copy copied)
  unfolding set_type set_len set_fd set_size send_enqueue copy_bytes
  Round-copied apart = record {
    bufpool = ground arith;
    sendqueue = ground arith;
    recvqueue = ground arith;
    memory = record { ptrs = λ r. ground arith; sizes = λ r. ground arith };
    copy = record {
      receiver = ground arith;
      used = ground arith;
      c_len = ground arith;
      c_type = ground arith;
      bytes = λ i h. ground arith;
    };
    other_bufs = λ r h. ground arith;
    other_blocks = λ a h. ground arith;
  }

-- Each queued buffer carries the payload to the client at its place.
abbrev pub Delivered : Single → List ℕ → List ℕ → ℕ → ℕ → (ℕ → ℕ) → Type 0
Delivered s [] [] len t payload = Unit {0}
Delivered s (q ∷ qs) (fd ∷ fds) len t payload =
    Carries s q fd len t payload × Delivered s qs fds len t payload
Delivered s _ _ len t payload = ⊥

-- What the whole loop leaves.
pub record Broadcast (p len t : ℕ) (fds sent rest : List ℕ) (s s' : Single) : Type 0 where
  pub bufpool : s'.bufpool ≡ rest
  pub sendqueue : s'.sendqueue ≡ s.sendqueue ++ sent
  pub recvqueue : s'.recvqueue ≡ s.recvqueue
  pub memory : SameMemory s.bufs s'.bufs
  pub copies : Delivered s' sent fds len t (block p s).body
  pub other_bufs : (r : ℕ) → IsApart s.bufs r sent → s'.bufs r ≡ s.bufs r
  pub other_blocks :
      (r : ℕ) → IsApart s.bufs r sent → s'.blocks (s.bufs r).ptr ≡ s.blocks (s.bufs r).ptr

post_each_nil : (p len t : ℕ) (s : Single) → post_each p len t [] s ≡ some s
unfolding post_each
post_each_nil p len t s = refl

post_each_step :
    (p len t fd : ℕ) (student : Option Student) (m : StdMap (Option Student)) (q : ℕ) (qs : List ℕ)
    (s c : Single)
    → s.bufpool ≡ q ∷ qs
    → q ≢ null
    → copy_payload q p len (start p len t fd q qs s) ≡ some c
    → post_each p len t ((fd, student) ∷ m) s ≡ post_each p len t m (after_copy p len t fd q qs s c)
unfolding post_each
post_each_step p len t fd student m q qs s c e h f = ground arith

-- The memory of a buffer that two states agree on.
pub block_same :
    (r : ℕ) (s s' : Single)
    → s'.bufs r ≡ s.bufs r
    → s'.blocks (s.bufs r).ptr ≡ s.blocks (s.bufs r).ptr
    → block r s' ≡ block r s
block_same r s s' e f = rw (block, e) f

pub Carries-same :
    (q fd len t : ℕ) (payload : ℕ → ℕ) (s s' : Single)
    → s'.bufs q ≡ s.bufs q
    → block q s' ≡ block q s
    → Carries s q fd len t payload
    → Carries s' q fd len t payload
Carries-same q fd len t payload s s' e f c = record {
  receiver = rw e c.receiver;
  used = rw e c.used;
  c_len = rw f c.c_len;
  c_type = rw f c.c_type;
  bytes = λ i h. rw f (c.bytes i h);
}

module _ (p len t fd q : ℕ) (qs fds sent rest : List ℕ) (s s1 s' : Single) where
  Broadcast-step :
      Round len t fd q qs (block p s).body s s1
      → IsApart s.bufs p (q ∷ sent)
      → IsApart s.bufs q sent
      → Broadcast p len t fds sent rest s1 s'
      → Broadcast p len t (fd ∷ fds) (q ∷ sent) rest s s'
  Broadcast-step o hp aq b = record {
    bufpool = b.bufpool;
    sendqueue = b.sendqueue ∙ rw o.sendqueue (append_assoc s.sendqueue (q ∷ []) sent);
    recvqueue = b.recvqueue ∙ o.recvqueue;
    memory = SameMemory-trans o.memory b.memory;
    copies = (Carries-same q fd len t _ s1 s' same_q same_block o.copy, rw same_p at b.copies);
    other_bufs = λ r h. b.other_bufs r (lift r h.2) ∙ o.other_bufs r h.0;
    other_blocks = λ r h. same_other r h;
  }
    where
      lift : (r : ℕ) → IsApart s.bufs r sent → IsApart s1.bufs r sent
      lift r = IsApart-SameMemory s.bufs s1.bufs r sent o.memory

      same_q : s'.bufs q ≡ s1.bufs q
      same_q = b.other_bufs q (lift q aq)

      same_block : block q s' ≡ block q s1
      same_block = block_same q s1 s' same_q (b.other_blocks q (lift q aq))

      same_other :
          (r : ℕ) → IsApart s.bufs r (q ∷ sent) → s'.blocks (s.bufs r).ptr ≡ s.blocks (s.bufs r).ptr
      same_other r h =
          ground (
            arith,
            o.memory.ptrs r,
            b.other_blocks r (lift r h.2),
            o.other_blocks (s.bufs r).ptr h.1,
          )

      same_p : (block p s1).body ≡ (block p s).body
      same_p =
          ap (λ (x : Block). x.body)
            (block_same p s s1 (o.other_bufs p hp.0) (o.other_blocks (s.bufs p).ptr hp.1))

-- With a buffer in the pool for each student, each apart from the others and from the original, and
-- a message that fits a buffer, the loop queues one copy for each student, in the order of the map.
pub post_each-delivers :
    (p len t : ℕ) (m : StdMap (Option Student)) (sent rest : List ℕ) (s : Single)
    → s.bufpool ≡ sent ++ rest
    → length sent ≡ length m
    → IsClean s.bufs sent
    → IsApart s.bufs p sent
    → len ≤ 5120
    → (s' : Single) × (post_each p len t m s ≡ some s') × Broadcast p len t (keys m) sent rest s s'
post_each-delivers p len t [] [] rest s e n clean apart fits = (
  s,
  post_each_nil p len t s,
  record {
    bufpool = e;
    sendqueue = sym (append-nil s.sendqueue);
    recvqueue = refl;
    memory = record { ptrs = λ q. refl; sizes = λ q. refl };
    copies = tt;
    other_bufs = λ r h. refl;
    other_blocks = λ r h. refl;
  },
)
post_each-delivers p len t [] (q ∷ sent) rest s e n clean apart fits = absurd (omega arith)
post_each-delivers p len t (x ∷ m) [] rest s e n clean apart fits = absurd (omega arith)
post_each-delivers p len t ((fd, student) ∷ m) (q ∷ sent) rest s e n clean apart fits =
    let qs : List ℕ = sent ++ rest in
    let c = copied p len t fd q qs s in
    let s1 = after_copy p len t fd q qs s c in
    let o : Round len t fd q qs (block p s).body s s1 = Round-copied p len t fd q qs s apart.1 in
    let (s', run, b) =
      post_each-delivers p len t m sent rest s1 o.bufpool (omega arith)
        (IsClean-SameMemory s.bufs s1.bufs sent o.memory clean.3)
        (IsApart-SameMemory s.bufs s1.bufs p sent o.memory apart.2) fits in
    let step =
      post_each_step p len t fd student m q qs s c e clean.0
        (copy_payload-copied p len t fd q qs s clean.1 fits) in
    (s', step ∙ run, Broadcast-step p len t fd q qs (keys m) sent rest s s1 s' o apart clean.2 b)
