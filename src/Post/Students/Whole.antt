-- ===== src/Post/Students/Whole.antt =====
-- `postTeacherToAllStudent` as a whole: the copies, the original and the empty pool.
use teachserver.Base.{
  ℕ, ◌≡◌, ◌≢◌, ◌≤◌, ◌<◌, refl, ◌∙◌, ◌⊎◌, true, Option, none, some, List, [], ◌∷◌, ◌++◌, arith,
  length, Option-cases, inl, inr,
}
use native.Mathlib.Decide.{ℕ_discrete}
use teachserver.StdMap.{StdMap, keys}
use teachserver.Protocol.{CommandType, code}
use teachserver.Single.{
  Single, null, block, reset, pool_free, set_len, set_type, set_size, set_fd, write_data,
  send_enqueue,
}
use teachserver.Single.Clean.{IsApart, IsClean, IsApart-SameMemory}
use teachserver.Student.{Student}
use teachserver.Room.{Room}
use teachserver.Server.{Server, room_of}
use teachserver.Post.{copy_payload, post_each, post_teacher_to_all_student}
use teachserver.Post.Students.{
  Carries, Delivered, Broadcast, post_each-delivers, post_each_step, after_copy, start,
}

-- Freeing the original leaves the copies as they are.
Carries-freed :
    (s : Single) (p q fd len t : ℕ) (payload : ℕ → ℕ)
    → (s.bufs p).ptr ≢ (s.bufs q).ptr
    → Carries s q fd len t payload
    → Carries (pool_free p (reset p s)) q fd len t payload
unfolding pool_free reset
Carries-freed s p q fd len t payload apart c = record {
  receiver = c.receiver;
  used = c.used;
  c_len = ground (arith, c.c_len);
  c_type = ground (arith, c.c_type);
  bytes = λ i h. ground (arith, c.bytes i h);
}

Delivered-freed :
    (s : Single) (p : ℕ) (qs fds : List ℕ) (len t : ℕ) (payload : ℕ → ℕ)
    → IsApart s.bufs p qs
    → Delivered s qs fds len t payload
    → Delivered (pool_free p (reset p s)) qs fds len t payload
Delivered-freed s p [] [] len t payload h d = tt
Delivered-freed s p [] (fd ∷ fds) len t payload h d = d
Delivered-freed s p (q ∷ qs) [] len t payload h d = d
Delivered-freed s p (q ∷ qs) (fd ∷ fds) len t payload h d =
    (Carries-freed s p q fd len t payload h.1 d.0, Delivered-freed s p qs fds len t payload h.2 d.1)

-- What the broadcast of a message of `len` bytes leaves, the original freed.
pub record AllServed (p len t : ℕ) (fds sent rest : List ℕ) (w w' : Server) : Type 0 where
  pub sendqueue : w'.single.sendqueue ≡ w.single.sendqueue ++ sent
  pub bufpool : w'.single.bufpool ≡ rest ++ p ∷ []
  pub recvqueue : w'.single.recvqueue ≡ w.single.recvqueue
  pub copies : Delivered w'.single sent fds len t (block p w.single).body
  pub rooms : w'.room_map ≡ w.room_map

AllServed-freed :
    (p len t : ℕ) (fds sent rest : List ℕ) (w : Server) (s : Single)
    → IsApart w.single.bufs p sent
    → Broadcast p len t fds sent rest w.single s
    → AllServed p len t fds sent rest w (record w { single = pool_free p (reset p s) })
unfolding pool_free reset
AllServed-freed p len t fds sent rest w s apart b = record {
  sendqueue = b.sendqueue;
  bufpool = rw b.bufpool;
  recvqueue = b.recvqueue;
  copies =
      Delivered-freed s p sent fds len t _
        (IsApart-SameMemory w.single.bufs s.bufs p sent b.memory apart) b.copies;
  rooms = refl;
}

whole_run :
    (p : ℕ) (t : CommandType) (w : Server) (k : ℕ) (r : Room) (s : Single)
    → p ≢ null
    → room_of p w ≡ some (k, r)
    → post_each p (block p w.single).c_len (code t) r.student_map w.single ≡ some s
    → post_teacher_to_all_student p t w ≡ some (true, record w { single = pool_free p (reset p s) })
unfolding post_teacher_to_all_student
whole_run p t w k r s h e run = ground arith

-- A message of any client of a room, the teacher or not, goes to every student of that room: one
-- copy each, in the order of the map, with the payload of the original, from the front of the pool;
-- the original goes back to the pool. It is so where the pool starts with a usable buffer for each
-- student and the length in the head is at most 5120.
pub post_teacher_to_all_student-delivers :
    (p : ℕ) (t : CommandType) (w : Server) (k : ℕ) (r : Room) (sent rest : List ℕ)
    → p ≢ null
    → room_of p w ≡ some (k, r)
    → w.single.bufpool ≡ sent ++ rest
    → length sent ≡ length r.student_map
    → IsClean w.single.bufs sent
    → IsApart w.single.bufs p sent
    → (block p w.single).c_len ≤ 5120
    → (w' : Server) × (post_teacher_to_all_student p t w ≡ some (true, w'))
      × AllServed p (block p w.single).c_len (code t) (keys r.student_map) sent rest w w'
post_teacher_to_all_student-delivers p t w k r sent rest h e pool n clean apart fits =
    let (s, run, b) =
      post_each-delivers p (block p w.single).c_len (code t) r.student_map sent rest w.single pool n
        clean apart fits in
    (
      record w { single = pool_free p (reset p s) },
      whole_run p t w k r s h e run,
      AllServed-freed p _ _ _ sent rest w s apart b,
    )

bufpool-copy_payload :
    (q p len : ℕ) (s c : Single) → copy_payload q p len s ≡ some c → c.bufpool ≡ s.bufpool
unfolding copy_payload write_data
bufpool-copy_payload q p len s c h = ground arith

bufpool-start :
    (p len t fd q : ℕ) (qs : List ℕ) (s : Single) → (start p len t fd q qs s).bufpool ≡ qs
unfolding set_type set_len
bufpool-start p len t fd q qs s = refl

bufpool-after_copy :
    (p len t fd q : ℕ) (qs : List ℕ) (s c : Single)
    → (after_copy p len t fd q qs s c).bufpool ≡ c.bufpool
unfolding set_fd set_size send_enqueue
bufpool-after_copy p len t fd q qs s c = refl

-- A round from the empty pool, or one whose copy does not fit, faults.
post_each_empty :
    (p len t fd : ℕ) (student : Option Student) (m : StdMap (Option Student)) (s : Single)
    → s.bufpool ≡ []
    → post_each p len t ((fd, student) ∷ m) s ≡ none
unfolding post_each
post_each_empty p len t fd student m s e = ground arith

post_each_stuck :
    (p len t fd : ℕ) (student : Option Student) (m : StdMap (Option Student)) (q : ℕ) (qs : List ℕ)
    (s : Single)
    → s.bufpool ≡ q ∷ qs
    → (q ≡ null) ⊎ (copy_payload q p len (start p len t fd q qs s) ≡ none)
    → post_each p len t ((fd, student) ∷ m) s ≡ none
unfolding post_each
post_each_stuck p len t fd student m q qs s e h = ground arith

post_each_short :
    (p len t : ℕ) (m : StdMap (Option Student)) (s : Single) (pool : List ℕ)
    → s.bufpool ≡ pool
    → length pool < length m
    → post_each p len t m s ≡ none
post_each_short p len t [] s pool e h = absurd (omega arith)
post_each_short p len t ((fd, student) ∷ m) s [] e h = post_each_empty p len t fd student m s e
post_each_short p len t ((fd, student) ∷ m) s (q ∷ qs) e h =
    elim (Option-cases (copy_payload q p len (start p len t fd q qs s))) [
      | inl f ↦ post_each_stuck p len t fd student m q qs s e (inr f)
      | inr (c, f) ↦ elim (ℕ_discrete q null) [
        | yes z ↦ post_each_stuck p len t fd student m q qs s e (inl z)
        | no z ↦
            post_each_step p len t fd student m q qs s c e z f
            ∙ post_each_short p len t m (after_copy p len t fd q qs s c) qs
                (bufpool-after_copy p len t fd q qs s c
                  ∙ bufpool-copy_payload q p len _ c f
                  ∙ bufpool-start p len t fd q qs s)
                (omega arith)
      ]
    ]

-- With fewer buffers in the pool than students in the room the broadcast reads a NULL: the branch
-- for an empty pool resets the buffer that it did not get.
pub post_teacher_to_all_student-faults :
    (p : ℕ) (t : CommandType) (w : Server) (k : ℕ) (r : Room)
    → p ≢ null
    → room_of p w ≡ some (k, r)
    → length w.single.bufpool < length r.student_map
    → post_teacher_to_all_student p t w ≡ none
unfolding post_teacher_to_all_student
post_teacher_to_all_student-faults p t w k r h e short =
    let f =
      post_each_short p (block p w.single).c_len (code t) r.student_map w.single _ refl short in
    ground (arith, f)
