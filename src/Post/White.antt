-- ===== src/Post/White.antt =====
-- `postTeacherToWhite` of handler/HandleMessage.cpp: where the message goes, and what becomes of the
-- buffer.
use teachserver.Base.{
  ℕ, ◌+◌, ◌≡◌, ◌≢◌, inl, inr, true, false, some, [], ◌∷◌, ◌++◌, arith, ◌==◌, if◌then◌else◌,
  Option-cases, count-append,
}
use teachserver.Protocol.{CommandType, code}
use teachserver.Single.{null, get_fd, block}
use teachserver.Single.Ledger.{held}
use teachserver.Room.{Room}
use teachserver.Server.{Server, room_of, free}
use teachserver.Post.{post_teacher_to_white}

-- The message of a room's teacher is queued once, behind all others, for the whiteboard of the room,
-- under the server's type, with its payload and the length in its head; the rooms and the pool stay
-- as they were.
pub post_teacher_to_white-delivers :
    (p : ℕ) (t : CommandType) (w : Server) (k : ℕ) (r : Room)
    → p ≢ null
    → room_of p w ≡ some (k, r)
    → r.teacher_fd ≡ get_fd p w.single
    → let w' = (post_teacher_to_white p t w).1 in
      ((post_teacher_to_white p t w).0 ≡ true)
      × (w'.single.sendqueue ≡ w.single.sendqueue ++ p ∷ [])
      × (get_fd p w'.single ≡ r.white_fd)
      × (block p w'.single ≡ record (block p w.single) { c_type = code t })
      × ((w'.single.bufs p).used ≡ (block p w.single).c_len)
      × (w'.single.bufpool ≡ w.single.bufpool)
      × (w'.room_map ≡ w.room_map)
unfolding post_teacher_to_white
post_teacher_to_white-delivers p t w k r h e f = ground arith

-- A message of anybody else, or of a client in no room, is not sent: the buffer goes back to the
-- pool, and the rooms, the queues and the memory stay as they were.
pub post_teacher_to_white-refuses :
    (p : ℕ) (t : CommandType) (w : Server)
    → p ≢ null
    → ((k : ℕ) (r : Room) → room_of p w ≡ some (k, r) → r.teacher_fd ≢ get_fd p w.single)
    → post_teacher_to_white p t w ≡ (false, free p w)
unfolding post_teacher_to_white
post_teacher_to_white-refuses p t w h f = elim (Option-cases (room_of p w)) [
  | inl e ↦ ground arith
  | inr ((k, r), e) ↦ ground (arith, f k r e)
]

-- Whoever sent it, the buffer is afterwards in the pool or in the queue once more than before, and
-- no other buffer moves.
pub held-post_teacher_to_white :
    (p : ℕ) (t : CommandType) (w : Server) (q : ℕ)
    → p ≢ null
    → held q (post_teacher_to_white p t w).1.single ≡ held q w.single + (if q == p then 1 else 0)
unfolding post_teacher_to_white held
held-post_teacher_to_white p t w q h = elim (Option-cases (room_of p w)) [
  | inl e ↦ ground (arith, count-append q w.single.bufpool (p ∷ []))
  | inr ((k, r), e) ↦
      ground (
        arith,
        count-append q w.single.bufpool (p ∷ []),
        count-append q w.single.sendqueue (p ∷ []),
      )
]
