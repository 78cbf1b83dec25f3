-- ===== src/Room/Sharing.antt =====
-- content/room.cpp: what the copies of the `Buf` objects leave when a student leaves a room of two.
use teachserver.Base.{ℕ, ◌+◌, ◌*◌, ◌≤◌, ◌≡◌, Option, some, List, ◌∷◌, arith, update, put_u32}
use teachserver.StdMap
use teachserver.StdMap.{StdMap}
use teachserver.Protocol.{code, status_code, offline, msg_head_len}
use teachserver.Protocol.Command.{st_send_student_status}
use teachserver.Single.{
  Single, block, with_block, pool_free, set_len, set_type, set_size, set_fd, reset, send_enqueue,
}
use teachserver.Student.{Student, set_student_status}
use teachserver.Room.{Room}
use teachserver.Room.Notify.{collect_status, put_status}

-- The state after the object p was copied to q, which is queued for the client.
abbrev queued : ℕ → ℕ → ℕ → List ℕ → Single → Single
queued p q fd rest s = send_enqueue q (
    set_fd q fd (
      set_size q 28 (record s {
        bufpool = rest;
        bufs = update s.bufs q (record {
          ptr = (s.bufs p).ptr;
          size = (s.bufs p).size;
          used = (s.bufs p).used;
          fd = (s.bufs p).fd;
          id = (s.bufs q).id;
        });
      })))

-- The state after the n-th status was written.
abbrev noted : ℕ → ℕ → Student → Single → Single
noted p n student s =
    with_block p
      (record (block p s) {
        body =
            put_status (block p s).body (4 + 8 * n) student.student_id
              (status_code student.current_status);
        c_len = (block p s).c_len + 8;
      })
      s

one_status :
    (p n fd : ℕ) (student : Student) (m : StdMap (Option Student)) (s : Single)
    → msg_head_len + (4 + 8 * n) + 8 ≤ (s.bufs p).size
    → collect_status p n ((fd, some student) ∷ m) s
      ≡ collect_status p (n + 1) m (noted p n student s)
unfolding collect_status
one_status p n fd student m s h = ground arith

-- The head of the message, and the number of statuses in front of them.
abbrev headed : ℕ → List ℕ → Single → Single
headed p pool s =
    set_type p (code st_send_student_status) (set_len p 12 (record s { bufpool = pool }))

abbrev counted : ℕ → ℕ → Single → Single
counted p n s = with_block p (record (block p s) { body = put_u32 (block p s).body 0 n }) s

module _ (fd other p q : ℕ) (rest : List ℕ) (a b : Student) (s : Single) where
  abbrev away : Student
  unfolding set_student_status
  away = set_student_status offline a

  abbrev written : Single
  written = counted p 2 (noted p 1 b (noted p 0 away (headed p (q ∷ rest) s)))

  abbrev freed : Single
  freed = pool_free p (reset p (queued p q other rest written))
