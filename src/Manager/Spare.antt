-- ===== src/Manager/Spare.antt =====
-- content/roommanager.cpp: a client who leaves brings no buffer back.
use teachserver.Base.{ℕ, ◌≤◌, ◌≡◌, inl, inr, some, Option-cases, [], ◌∷◌, arith}
use teachserver.StdMap.{StdMap}
use teachserver.Single.{Single}
use teachserver.Room.{Room}
use teachserver.Room.Notify
use teachserver.Room.Notify.{
  put_status, send_status, send_status_all, collect_status, post_status, mark_offline,
  teacher_disconnect, update_all_student_status,
}
use teachserver.Manager
use teachserver.Single.Spare.{spare}
use teachserver.Room.Spare

pub spare-del_client :
    (fd : ℕ) (rooms after : StdMap Room) (s s' : Single)
    → Manager.del_client fd rooms s ≡ some (after, s')
    → spare s' ≤ spare s
unfolding Manager.del_client
spare-del_client fd [] after s s' h = ground (arith, h)
spare-del_client fd ((k, r) ∷ rooms) after s s' h = elim (Option-cases (Notify.del_client fd r s)) [
  | inl e ↦ ground (arith, e)
  | inr ((r', s1), e) ↦ elim (Option-cases (Manager.del_client fd rooms s1)) [
    | inl e2 ↦ ground (arith, e, e2)
    | inr ((rooms', s2), e2) ↦ ground (
      arith,
      e,
      e2,
      Spare.spare-del_client fd r r' s s1 e,
      spare-del_client fd rooms rooms' s1 s2 e2,
    )
  ]
]
