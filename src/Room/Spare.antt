-- ===== src/Room/Spare.antt =====
-- content/room.cpp: a client who leaves a room brings no buffer back.
use teachserver.Base.{
  ℕ, ◌+◌, ◌*◌, ◌≤◌, ◌≡◌, ap, sym, ◌∙◌, inl, inr, Bool-cases, Option, false, none, some,
  Option-cases, [], ◌∷◌, arith, ◌==◌, ltb, put_u32,
}
use mathlib.Core.Option.{some-injective}
use teachserver.StdMap
use teachserver.StdMap.{StdMap}
use teachserver.Student.{Student}
use teachserver.Single.{
  Single, null, block, with_block, pool_malloc, pool_free, send_enqueue, set_fd, set_size, set_len,
  set_type, reset, write_data, copy_object,
}
use teachserver.Protocol.{code, status_code, msg_head_len, student_status_len}
use teachserver.Protocol.Command.{st_send_student_status}
use teachserver.Room.{Room}
use teachserver.Room.Notify
use teachserver.Room.Notify.{
  put_status, send_status, send_status_all, collect_status, post_status, mark_offline,
  teacher_disconnect, update_all_student_status,
}
use teachserver.Single.Spare.{
  spare, spare-pool_malloc, spare-write_data, spare-addressed, spare-typed, spare-copy_object,
  spare-freed, spare-numbered,
}

send_status_run :
    (fd id status : ℕ) (s s3 : Single)
    → ((pool_malloc s).0 == null) ≡ false
    → write_data (pool_malloc s).0 student_status_len (put_status (λ _. 0) 0 id status) (
        set_type
          (pool_malloc s).0
          (code st_send_student_status)
          (set_len (pool_malloc s).0 (msg_head_len + student_status_len) (pool_malloc s).1))
      ≡ some s3
    → send_status fd id status s
      ≡ some (
          send_enqueue (pool_malloc s).0 (
            set_fd
              (pool_malloc s).0
              fd
              (set_size (pool_malloc s).0 (msg_head_len + student_status_len) s3)))
unfolding send_status
send_status_run fd id status s s3 h e = ground (arith, h, e)

pub spare-send_status :
    (fd id status : ℕ) (s s' : Single) → send_status fd id status s ≡ some s' → spare s' ≤ spare s
unfolding send_status
spare-send_status fd id status s s' h =
    let (p, s1) = pool_malloc s in
    let len = msg_head_len + student_status_len in
    let s2 = set_type p (code st_send_student_status) (set_len p len s1) in
    elim (Bool-cases (p == null)) [
      | inl e ↦ ground (arith, e)
      | inr some_p ↦
          elim (Option-cases
            (write_data p student_status_len (put_status (λ _. 0) 0 id status) s2)) [
              | inl e ↦ ground (arith, some_p, e)
              | inr (s3, e) ↦
                  let same =
                    some-injective _ s' (sym (send_status_run fd id status s s3 some_p e) ∙ h) in
                  omega (
                    arith,
                    ap spare same,
                    spare-addressed p fd len s3,
                    spare-write_data p s2 student_status_len _ s3 e,
                    spare-typed p len (code st_send_student_status) s1,
                    spare-pool_malloc s (ground (arith, some_p)),
                  )
            ]
    ]

pub spare-send_status_all :
    (m : StdMap (Option Student)) (id status : ℕ) (s s' : Single)
    → send_status_all m id status s ≡ some s'
    → spare s' ≤ spare s
unfolding send_status_all
spare-send_status_all [] id status s s' h = ground (arith, h)
spare-send_status_all ((fd, student) ∷ m) id status s s' h =
    elim (Option-cases (send_status fd id status s)) [
      | inl e ↦ ground (arith, e)
      | inr (t, e) ↦
          ground
            (arith, e, spare-send_status fd id status s t e, spare-send_status_all m id status t s')
    ]

pub spare-collect_status :
    (p n : ℕ) (m : StdMap (Option Student)) (s : Single) (k : ℕ) (s' : Single)
    → collect_status p n m s ≡ some (k, s')
    → spare s' ≡ spare s
unfolding collect_status spare set_len
spare-collect_status p n [] s k s' h = ground (arith, h)
spare-collect_status p n ((fd, none) ∷ m) s k s' h = cc
spare-collect_status p n ((fd, some student) ∷ m) s k s' h =
    let o = 4 + student_status_len * n in
    let b = block p s in
    let body = put_status b.body o student.student_id (status_code student.current_status) in
    let next = with_block p (record b { body = body; c_len = b.c_len + student_status_len }) s in
    let rest = spare-collect_status p (n + 1) m next k s' in
    elim (Bool-cases (ltb (s.bufs p).size (msg_head_len + o + student_status_len))) [
      | inl e ↦ ground (arith, e)
      | inr e ↦ ground (arith, e, rest)
    ]

pub spare-post_status :
    (p : ℕ) (m : StdMap (Option Student)) (s s' : Single)
    → post_status p m s ≡ some s'
    → spare s' ≤ spare s
unfolding post_status
spare-post_status p [] s s' h = ground (arith, h)
spare-post_status p ((fd, student) ∷ m) s s' h =
    let (pp, s1) = pool_malloc s in
    let len = (block p s).c_len in
    elim (Bool-cases (pp == null)) [
      | inl e ↦ ground (arith, e)
      | inr some_p ↦ elim (Option-cases (copy_object pp p len s1)) [
        | inl e ↦ ground (arith, some_p, e)
        | inr (s2, e) ↦
            let s3 = send_enqueue pp (set_fd pp fd (set_size pp len s2)) in
            let rest : (post_status p m s3 ≡ some s') = ground (arith, some_p, e, h) in
            omega (
              arith,
              spare-post_status p m s3 s' rest,
              spare-addressed pp fd len s2,
              spare-copy_object pp p len s1 s2 e,
              spare-pool_malloc s (ground (arith, some_p)),
            )
      ]
    ]

pub spare-update_all_student_status :
    (fd : ℕ) (r r' : Room) (s s' : Single)
    → update_all_student_status fd r s ≡ some (r', s')
    → spare s' ≤ spare s
unfolding update_all_student_status
spare-update_all_student_status fd r r' s s' h =
    let (p, s1) = pool_malloc s in
    let s2 = set_type p (code st_send_student_status) (set_len p (msg_head_len + 4) s1) in
    elim (Bool-cases (p == null)) [
      | inl e ↦ ground (arith, e)
      | inr some_p ↦ elim (Option-cases (mark_offline fd r.student_map)) [
        | inl e ↦ ground (arith, some_p, e)
        | inr (marked, em) ↦ elim (Option-cases (collect_status p 0 marked s2)) [
          | inl e ↦ ground (arith, some_p, em, e)
          | inr ((n, s3), ec) ↦
              let s4 =
                with_block p (record (block p s3) { body = put_u32 (block p s3).body 0 n }) s3 in
              elim (Option-cases (post_status p (StdMap.erase fd marked) s4)) [
                | inl e ↦ ground (arith, some_p, em, ec, e)
                | inr (s5, ep) ↦
                    let same : (s' ≡ pool_free p (reset p s5)) =
                      ground (arith, some_p, em, ec, ep, h) in
                    omega (
                      arith,
                      ap spare same,
                      spare-freed p s5,
                      spare-post_status p (StdMap.erase fd marked) s4 s5 ep,
                      spare-numbered p n s3,
                      spare-collect_status p 0 marked s2 n s3 ec,
                      spare-typed p (msg_head_len + 4) (code st_send_student_status) s1,
                      spare-pool_malloc s (ground (arith, some_p)),
                    )
              ]
        ]
      ]
    ]

pub spare-del_client :
    (fd : ℕ) (r r' : Room) (s s' : Single)
    → Notify.del_client fd r s ≡ some (r', s')
    → spare s' ≤ spare s
unfolding Notify.del_client teacher_disconnect
spare-del_client fd r r' s s' h = elim (Bool-cases (fd == r.teacher_fd)) [
  | inl t ↦ elim (Option-cases (send_status_all r.student_map 4294967295 4294967295 s)) [
    | inl e ↦ ground (arith, t, e)
    | inr (s1, e) ↦
        ground (arith, t, e, spare-send_status_all r.student_map 4294967295 4294967295 s s1 e)
  ]
  | inr t ↦ ground (arith, t, spare-update_all_student_status fd r r' s s')
]
