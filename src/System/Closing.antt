-- ===== src/System/Closing.antt =====
-- CRoom::del_client and CRoomManager::del_client keep the rooms well.
use teachserver.Base.{ℕ, ◌≡◌, ◌∙◌, sym, some, List, [], ◌∷◌, arith, Option-cases, inl, inr, All}
use native.Mathlib.Decide.{ℕ_discrete}
use mathlib.Core.Path.{subst}
use teachserver.StdMap
use teachserver.StdMap.{StdMap, keys}
use teachserver.StdMap.Laws.{IsOrdered, Above, erase-IsOrdered}
use teachserver.Single.{Single}
use teachserver.Room
use teachserver.Room.{Room}
use teachserver.Room.Notify
use teachserver.Manager
use teachserver.Manager.Leave.{mark_offline-IsOrdered, updated_room, disconnected_room}
use teachserver.System.Ordered.{IsSound, IsSoundAt, IsWell}
use teachserver.System.Games.{with_students-IsSound}
use teachserver.System.Clients.{reset-IsSound, white-IsSound}

without_teacher-IsSound : (k : ℕ) (r : Room) → IsSound k r → IsSound k (record r { teacher_fd = 0 })
without_teacher-IsSound k r u = record {
  id = u.id;
  students = u.students;
  groups = u.groups;
  puzzles = u.puzzles;
}

room_del_client-IsSound :
    (fd k : ℕ) (r r' : Room) (s s' : Single)
    → IsSound k r
    → Notify.del_client fd r s ≡ some (r', s')
    → IsSound k r'
unfolding Notify.del_client Room.set_white_fd
room_del_client-IsSound fd k r r' s s' u h = elim (ℕ_discrete fd r.teacher_fd) [
  | yes t ↦ elim (Option-cases (Notify.teacher_disconnect r s)) [
    | inl e ↦ absurd (ground arith)
    | inr ((r1, s1), e) ↦
        let d = disconnected_room r r1 s s1 e in
        let v = reset-IsSound k r u in ground (arith, without_teacher-IsSound k (Room.reset r) v)
  ]
  | no t ↦ elim (ℕ_discrete fd r.white_fd) [
    | yes e ↦ ground (arith, white-IsSound k 0 r u)
    | no e ↦
        let (m, marked, e) = updated_room fd r r' s s' (ground arith) in
        let o = mark_offline-IsOrdered fd r.student_map m u.students marked in
        subst (IsSound k) (sym e)
          (with_students-IsSound k r (StdMap.erase fd m) u (erase-IsOrdered fd m o))
  ]
]

del_client_sound :
    (fd : ℕ) (rooms rooms' : StdMap Room) (s s' : Single)
    → All IsSoundAt rooms
    → Manager.del_client fd rooms s ≡ some (rooms', s')
    → All IsSoundAt rooms' × (keys rooms' ≡ keys rooms)
unfolding Manager.del_client
del_client_sound fd [] rooms' s s' us h = ground arith
del_client_sound fd ((k, r) ∷ rooms) rooms' s s' us h =
    elim (Option-cases (Notify.del_client fd r s)) [
      | inl e ↦ absurd (ground arith)
      | inr ((r1, s1), e) ↦ elim (Option-cases (Manager.del_client fd rooms s1)) [
        | inl f ↦ absurd (ground arith)
        | inr ((rooms1, s2), f) ↦
            let (vs, same) = del_client_sound fd rooms rooms1 s1 s2 us.1 f in
            let v = room_del_client-IsSound fd k r r1 s s1 us.0 e in ground (arith, vs, same, v)
      ]
    ]

-- Whether keys rise is said by the keys.
Above-keys : (b : ℕ) (m m' : StdMap Room) → Above b m → keys m' ≡ keys m → Above b m'
Above-keys b [] [] o e = tt
Above-keys b [] (x ∷ m') o e = absurd (ground arith)
Above-keys b (x ∷ m) [] o e = absurd (ground arith)
Above-keys b ((j, v) ∷ m) ((k, q) ∷ m') o e = ground (arith, Above-keys b m m' o.1)

ordered_by_keys : (m m' : StdMap Room) → IsOrdered m → keys m' ≡ keys m → IsOrdered m'
ordered_by_keys [] [] o e = tt
ordered_by_keys [] (x ∷ m') o e = absurd (ground arith)
ordered_by_keys (x ∷ m) [] o e = absurd (ground arith)
ordered_by_keys ((j, v) ∷ m) ((k, q) ∷ m') o e =
    ground (arith, ordered_by_keys m m' o.1, Above-keys j m m' o.0)

pub del_client-IsWell :
    {ks : List ℕ} (fd : ℕ) (rooms rooms' : StdMap Room) (s s' : Single)
    → IsWell ks rooms
    → Manager.del_client fd rooms s ≡ some (rooms', s')
    → IsWell ks rooms'
del_client-IsWell fd rooms rooms' s s' u h =
    let (vs, same) = del_client_sound fd rooms rooms' s s' u.sound h in
    record {
      ordered = ordered_by_keys rooms rooms' u.ordered same;
      sound = vs;
      same = same ∙ u.same;
    }
