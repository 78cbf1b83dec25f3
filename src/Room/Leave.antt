-- ===== src/Room/Leave.antt =====
-- `CRoom::del_client` and what becomes of a client that leaves: content/room.cpp.
use teachserver.Base.{
  ℕ, ◌+◌, ◌*◌, ◌≡◌, ◌≤◌, ◌<◌, inl, inr, Option, none, some, [], ◌∷◌, arith, length, Option-cases,
  put_u32,
}
use teachserver.StdMap
use teachserver.StdMap.{StdMap}
use teachserver.StdMap.Entries.{length-assign, length-erase}
use teachserver.Protocol.{code, offline, status_code, msg_head_len, student_status_len}
use teachserver.Protocol.Command.{st_send_student_status}
use teachserver.Single.{Single, block, with_block, pool_malloc, set_len, set_type, copy_object}
use teachserver.Student.{Student, set_student_status}
use teachserver.Room.{Room}
use teachserver.Room.Notify.{
  put_status, mark_offline, collect_status, post_status, update_all_student_status,
}

-- Marking a student offline keeps the number of students.
length-mark_offline :
    (fd : ℕ) (m m' : StdMap (Option Student)) → mark_offline fd m ≡ some m' → length m' ≡ length m
unfolding mark_offline set_student_status
length-mark_offline fd m m' h = elim (Option-cases (StdMap.find fd m)) [
  | inl e ↦ ground arith
  | inr (none, e) ↦ ground arith
  | inr (some student, e) ↦
      ground (arith, length-assign fd (some (set_student_status offline student)) m)
]

-- The write of one status, and the length in the head after it.
one_status : ℕ → ℕ → Student → Single → Single
unfolding put_status
one_status p n student s =
    with_block p
      (record (block p s) {
        body =
            put_status (block p s).body (4 + student_status_len * n) student.student_id
              (status_code student.current_status);
        c_len = (block p s).c_len + student_status_len;
      })
      s

collect_status_len :
    (p n : ℕ) (m : StdMap (Option Student)) (s s' : Single) (n' : ℕ)
    → collect_status p n m s ≡ some (n', s')
    → (block p s').c_len ≡ (block p s).c_len + 8 * length m
unfolding collect_status one_status
collect_status_len p n [] s s' n' h = ground arith
collect_status_len p n ((fd, none) ∷ m) s s' n' h = ground arith
collect_status_len p n ((fd, some student) ∷ m) s s' n' h =
    ground (arith, collect_status_len p (n + 1) m (one_status p n student s) s' n')

-- A copy of more bytes than the object has faults, whatever is in the pool.
post_status_faults :
    (p fd : ℕ) (student : Option Student) (m : StdMap (Option Student)) (s : Single)
    → 32 < (block p s).c_len
    → post_status p ((fd, student) ∷ m) s ≡ none
unfolding post_status pool_malloc copy_object
post_status_faults p fd student m s h = ground arith

-- The second loop faults on the students that are left of two or more.
post_rest_faults :
    (p fd : ℕ) (m : StdMap (Option Student)) (s : Single)
    → 2 ≤ length m
    → 32 < (block p s).c_len
    → post_status p (StdMap.erase fd m) s ≡ none
post_rest_faults p fd m s h long = go (StdMap.erase fd m) (omega (arith, length-erase fd m, h))
  where
    go : (rest : StdMap (Option Student)) → 1 ≤ length rest → post_status p rest s ≡ none
    go [] i = absurd (omega arith)
    go ((k, student) ∷ rest) i = post_status_faults p k student rest s long

-- The buffer from the pool, with the head of a status message with no status yet.
abbrev headed : Single → ℕ × Single
headed s =
    let (p, s1) = pool_malloc s in
    (p, set_type p (code st_send_student_status) (set_len p (msg_head_len + 4) s1))

headed_len : (s : Single) → (block (headed s).0 (headed s).1).c_len ≡ 12
unfolding pool_malloc set_len set_type
headed_len s = ground arith

-- The copies of a status message are made of the `Buf` objects, which have 32 bytes: in a room of
-- three students or more every such message runs past the end of one, whoever leaves.
pub update_all_student_status-faults :
    (fd : ℕ) (r : Room) (s : Single)
    → 3 ≤ length r.student_map
    → update_all_student_status fd r s ≡ none
unfolding update_all_student_status
update_all_student_status-faults fd r s h = elim (Option-cases (mark_offline fd r.student_map)) [
  | inl e ↦ ground arith
  | inr (marked, e) ↦ elim (Option-cases (collect_status (headed s).0 0 marked (headed s).1)) [
    | inl c ↦ ground arith
    | inr ((n, s3), c) ↦
        let len = collect_status_len (headed s).0 0 marked (headed s).1 s3 n c in
        let kept = length-mark_offline fd r.student_map marked e in
        let p = (headed s).0 in
        let s4 = with_block p (record (block p s3) { body = put_u32 (block p s3).body 0 n }) s3 in
        let f =
          post_rest_faults p fd marked s4 (omega (arith, kept, h))
            (ground (arith, len, kept, h, headed_len s)) in
        ground (arith, f)
  ]
]
