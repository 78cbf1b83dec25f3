-- ===== src/Manager/Lookup.antt =====
-- content/roommanager.cpp: which room a client is in. The lookup against a description of it.
use teachserver.Base.{
  ℕ, ◌≡◌, ◌≢◌, refl, ap, ◌⊎◌, inl, inr, none, some, [], ◌∷◌, ◌++◌, arith, All, Option-cases,
}
use native.Mathlib.Decide.{ℕ_discrete}
use teachserver.StdMap
use teachserver.StdMap.{StdMap}
use teachserver.Room
use teachserver.Room.{Room}
use teachserver.Manager.{get_room_by_fd}

-- The client is a student, the teacher or the whiteboard of the room.
abbrev pub IsMember : ℕ → Room → Type 0
IsMember fd r = (StdMap.find fd r.student_map ≢ none) ⊎ (fd ≡ r.teacher_fd) ⊎ (fd ≡ r.white_fd)

-- The client has none of the three roles.
pub record IsStranger (fd : ℕ) (r : Room) : Type 0 where
  pub student : StdMap.find fd r.student_map ≡ none
  pub teacher : fd ≢ r.teacher_fd
  pub white : fd ≢ r.white_fd

abbrev pub IsStrangerIn : ℕ → ℕ × Room → Type 0
IsStrangerIn fd e = IsStranger fd e.1

own_room :
    (fd : ℕ) (r : Room)
    → ((Room.get_room_by_fd fd r ≡ none) × IsStranger fd r)
      ⊎ ((Room.get_room_by_fd fd r ≡ some r) × IsMember fd r)
unfolding Room.get_room_by_fd
own_room fd r = elim (Option-cases (StdMap.find fd r.student_map)) [
  | inr (s, e) ↦ inr (ground arith, inl (λ n. ground arith))
  | inl e ↦ elim (ℕ_discrete fd r.teacher_fd) [
    | yes t ↦ inr (ground arith, inr (inl t))
    | no t ↦ elim (ℕ_discrete fd r.white_fd) [
      | yes u ↦ inr (ground arith, inr (inr u))
      | no u ↦ inl (ground arith, record { student = e; teacher = t; white = u })
    ]
  ]
]

pub get_room_by_fd-stranger :
    (fd : ℕ) (rooms : StdMap Room) → All (IsStrangerIn fd) rooms → get_room_by_fd fd rooms ≡ none
unfolding get_room_by_fd Room.get_room_by_fd
get_room_by_fd-stranger fd [] h = refl
get_room_by_fd-stranger fd ((k, r) ∷ rooms) h =
    ground (arith, h.0.student, h.0.teacher, h.0.white, get_room_by_fd-stranger fd rooms h.1)

-- The answer is NULL where the client has a role in no room, and otherwise the first room, in the
-- order of the ids, where it has one, unchanged.
pub get_room_by_fd-first :
    (fd : ℕ) (rooms : StdMap Room)
    → ((get_room_by_fd fd rooms ≡ none) × All (IsStrangerIn fd) rooms)
      ⊎ ((before : StdMap Room) × (k : ℕ) × (r : Room) × (after : StdMap Room) × (get_room_by_fd fd
              rooms
            ≡ some (k, r))
          × (rooms ≡ before ++ (k, r) ∷ after)
          × All (IsStrangerIn fd) before
          × IsMember fd r)
unfolding get_room_by_fd
get_room_by_fd-first fd [] = inl (refl, tt)
get_room_by_fd-first fd ((k, r) ∷ rooms) = elim (own_room fd r) [
  | inr (e, m) ↦ inr ([], k, r, rooms, ground arith, refl, tt, m)
  | inl (e, u) ↦ elim (get_room_by_fd-first fd rooms) [
    | inl (n, us) ↦ inl (ground arith, (u, us))
    | inr (before, j, q, after, found, split, us, m) ↦
        inr ((k, r) ∷ before, j, q, after, ground arith, ap (◌∷◌ (k, r)) split, (u, us), m)
  ]
]
