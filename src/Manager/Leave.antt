-- ===== src/Manager/Leave.antt =====
-- `CRoomManager::del_client`, which the event loop calls for a connection that ends.
use teachserver.Base.{
  ℕ, ◌≡◌, ◌≢◌, ◌⊎◌, ◌≤◌, Option, none, some, [], ◌∷◌, arith, All, length, get_elem?, Option-cases,
  inl, inr, zero, suc,
}
use native.Mathlib.Decide.{ℕ_discrete}
use teachserver.StdMap
use teachserver.StdMap.{StdMap, keys}
use teachserver.StdMap.Laws.{IsOrdered, find-erase, assign-IsOrdered}
use teachserver.Protocol.{offline}
use teachserver.Single.{Single}
use teachserver.Student.{Student, set_student_status}
use teachserver.Room.{Room, reset}
use teachserver.Room.Notify
use teachserver.Room.Notify.{teacher_disconnect, mark_offline, update_all_student_status}
use teachserver.Room.Leave.{update_all_student_status-faults}
use teachserver.Manager.{get_room_by_fd, del_client}
use teachserver.Manager.Lookup.{IsStranger, IsStrangerIn, get_room_by_fd-stranger}

-- The students stand in the order of their descriptors, and the client is not a student and the
-- whiteboard at once.
pub record IsProper (fd : ℕ) (r : Room) : Type 0 where
  pub ordered : IsOrdered r.student_map
  pub one_role : (fd ≢ r.white_fd) ⊎ (StdMap.find fd r.student_map ≡ none)

abbrev pub IsProperIn : ℕ → ℕ × Room → Type 0
IsProperIn fd e = IsProper fd e.1

pub mark_offline-IsOrdered :
    (fd : ℕ) (m m' : StdMap (Option Student))
    → IsOrdered m
    → mark_offline fd m ≡ some m'
    → IsOrdered m'
unfolding mark_offline set_student_status
mark_offline-IsOrdered fd m m' o h = elim (Option-cases (StdMap.find fd m)) [
  | inl e ↦ ground arith
  | inr (none, e) ↦ ground arith
  | inr (some student, e) ↦
      ground (arith, assign-IsOrdered fd (some (set_student_status offline student)) m o)
]

-- What one room is afterwards, by the client's role.
pub disconnected_room :
    (r r' : Room) (s s' : Single) → teacher_disconnect r s ≡ some (r', s') → r' ≡ reset r
unfolding teacher_disconnect
disconnected_room r r' s s' h = ground arith

pub updated_room :
    (fd : ℕ) (r r' : Room) (s s' : Single)
    → update_all_student_status fd r s ≡ some (r', s')
    → (m : StdMap (Option Student)) × (mark_offline fd r.student_map ≡ some m)
      × (r' ≡ record r { student_map = StdMap.erase fd m })
unfolding update_all_student_status
updated_room fd r r' s s' h = elim (Option-cases (mark_offline fd r.student_map)) [
  | inl e ↦ absurd (ground arith)
  | inr (m, e) ↦ (m, e, ground arith)
]

room_del_client-IsStranger :
    (fd : ℕ) (r r' : Room) (s s' : Single)
    → fd ≢ 0
    → IsProper fd r
    → Notify.del_client fd r s ≡ some (r', s')
    → IsStranger fd r'
unfolding Notify.del_client reset StdMap.find
room_del_client-IsStranger fd r r' s s' nz p h = elim (ℕ_discrete fd r.teacher_fd) [
  | yes t ↦ elim (Option-cases (teacher_disconnect r s)) [
    | inl e ↦ absurd (ground arith)
    | inr ((r1, s1), e) ↦
        let d = disconnected_room r r1 s s1 e in
        record { student = ground arith; teacher = ground arith; white = ground arith }
  ]
  | no t ↦ elim (ℕ_discrete fd r.white_fd) [
    | yes u ↦ record {
      student = ground (arith, p.one_role);
      teacher = ground arith;
      white = ground arith;
    }
    | no u ↦
        let (m, marked, e) = updated_room fd r r' s s' (ground arith) in
        let o = mark_offline-IsOrdered fd r.student_map m p.ordered marked in
        record {
          student = ground (arith, find-erase fd fd m o);
          teacher = ground arith;
          white = ground arith;
        }
  ]
]

strangers_left :
    (fd : ℕ) (rooms rooms' : StdMap Room) (s s' : Single)
    → fd ≢ 0
    → All (IsProperIn fd) rooms
    → del_client fd rooms s ≡ some (rooms', s')
    → All (IsStrangerIn fd) rooms' × (keys rooms' ≡ keys rooms)
unfolding del_client
strangers_left fd [] rooms' s s' nz p h = ground arith
strangers_left fd ((k, r) ∷ rooms) rooms' s s' nz p h =
    elim (Option-cases (Notify.del_client fd r s)) [
      | inl e ↦ absurd (ground arith)
      | inr ((r1, s1), e) ↦ elim (Option-cases (del_client fd rooms s1)) [
        | inl f ↦ absurd (ground arith)
        | inr ((rooms1, s2), f) ↦
            let (us, same) = strangers_left fd rooms rooms1 s1 s2 nz p.1 f in
            let u = room_del_client-IsStranger fd r r1 s s1 nz p.0 e in ground (arith, us, same, u)
      ]
    ]

-- Where the removal of a client, whose descriptor is not 0, from all rooms returns, the client is
-- found in no room any more, whether it was teacher, whiteboard or student, and the rooms keep
-- their ids. It is so where each room's students are in the order of their descriptors and the
-- client is nowhere whiteboard and student at once.
pub del_client-forgets :
    (fd : ℕ) (rooms rooms' : StdMap Room) (s s' : Single)
    → fd ≢ 0
    → All (IsProperIn fd) rooms
    → del_client fd rooms s ≡ some (rooms', s')
    → (get_room_by_fd fd rooms' ≡ none) × (keys rooms' ≡ keys rooms)
del_client-forgets fd rooms rooms' s s' nz p h =
    let (us, same) = strangers_left fd rooms rooms' s s' nz p h in
    (get_room_by_fd-stranger fd rooms' us, same)

-- One room with three students or more is enough for the removal of a client to run past the end of
-- a `Buf` object, although the client is neither the teacher nor the whiteboard of that room and
-- need not be in it.
pub del_client-faults :
    (fd i k : ℕ) (r : Room) (rooms : StdMap Room) (s : Single)
    → get_elem? rooms i ≡ some (k, r)
    → 3 ≤ length r.student_map
    → fd ≢ r.teacher_fd
    → fd ≢ r.white_fd
    → del_client fd rooms s ≡ none
unfolding del_client Notify.del_client
del_client-faults fd i k r [] s at long t u = cc
del_client-faults fd zero k r ((j, q) ∷ rooms) s at long t u =
    ground (arith, update_all_student_status-faults fd r s long)
del_client-faults fd (suc i) k r ((j, q) ∷ rooms) s at long t u =
    elim (Option-cases (Notify.del_client fd q s)) [
      | inl e ↦ ground arith
      | inr ((q', s'), e) ↦ ground (arith, del_client-faults fd i k r rooms s' at long t u)
    ]
