-- ===== src/House/Send.antt =====
-- content/makehouse.cpp: `CGroup::sendToOtherStudent`, whose copies are made of the `Buf` objects.
use teachserver.Base.{ℕ, zero, suc, ◌%◌, ◌<◌, ◌≡◌, ◌≢◌, none, some, List, [], ◌∷◌, arith, get_elem?}
use teachserver.StdMap.{StdMap}
use teachserver.Protocol.{CommandType, code}
use teachserver.Single.{Single, null, get_fd, pool_malloc, copy_object}
use teachserver.House.Group.{Group, send_loop, send_to_other_student}

send_loop_faults :
    (p t q : ℕ) (qs : List ℕ) (m : StdMap ℕ) (i fd stu : ℕ) (s : Single)
    → s.bufpool ≡ q ∷ qs
    → q ≢ null
    → 32 < (s.bufs p).ptr % 4294967296
    → get_elem? m i ≡ some (fd, stu)
    → fd ≢ get_fd p s
    → send_loop p t m s ≡ none
unfolding send_loop pool_malloc copy_object
send_loop_faults p t q qs [] i fd stu s e nn wide at other = cc
send_loop_faults p t q qs ((k, a) ∷ m) zero fd stu s e nn wide at other = ground arith
send_loop_faults p t q qs ((k, a) ∷ m) (suc i) fd stu s e nn wide at other =
    ground (arith, send_loop_faults p t q qs m i fd stu s e nn wide at other)

-- A change of the house is never passed on: with another student in the group and a buffer in the
-- pool, the copy has the low half of the buffer's address for its length, which runs past the end of
-- the `Buf` object for any address whose low half is above 32.
pub send_to_other_student-faults :
    (p q : ℕ) (t : CommandType) (g : Group) (s : Single) (qs : List ℕ) (i fd stu : ℕ)
    → s.bufpool ≡ q ∷ qs
    → q ≢ null
    → 32 < (s.bufs p).ptr % 4294967296
    → get_elem? g.student_map i ≡ some (fd, stu)
    → fd ≢ get_fd p s
    → send_to_other_student p t g s ≡ none
unfolding send_to_other_student
send_to_other_student-faults p q t g s qs i fd stu e nn wide at other =
    ground (arith, send_loop_faults p (code t) q qs g.student_map i fd stu s e nn wide at other)
