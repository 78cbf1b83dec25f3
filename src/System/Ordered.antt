-- ===== src/System/Ordered.antt =====
-- content/roommanager.cpp and content/room.cpp: what holds of the rooms while the program runs.
use teachserver.Base.{
  ℕ, ◌≡◌, ◌∙◌, sym, none, some, List, [], ◌∷◌, All, arith, ◌⊎◌, inl, inr, Option-cases,
}
use native.Mathlib.Decide.{ℕ_discrete}
use mathlib.Core.Path.{subst}
use teachserver.StdMap
use teachserver.StdMap.{StdMap, keys}
use teachserver.StdMap.Laws.{IsOrdered, assign-IsOrdered, keys-assign}
use teachserver.Room
use teachserver.Room.{Room}
use teachserver.Manager
use teachserver.Server.{Server, Env}
use teachserver.Handler.Forward.{Handler}

-- A room stands under its id, and the keys of its maps rise.
pub record IsSound (k : ℕ) (r : Room) : Type 0 where
  pub id : r.room_id ≡ k
  pub students : IsOrdered r.student_map
  pub groups : IsOrdered r.buildhouse_groups
  pub puzzles : IsOrdered r.puzzle_map

abbrev pub IsSoundAt : ℕ × Room → Type 0
IsSoundAt e = IsSound e.0 e.1

-- The rooms rise by their ids, which are `ks`, and each is sound.
pub record IsWell (ks : List ℕ) (rooms : StdMap Room) : Type 0 where
  pub ordered : IsOrdered rooms
  pub sound : All IsSoundAt rooms
  pub same : keys rooms ≡ ks

itself :
    (fd : ℕ) (q : Room) → (Room.get_room_by_fd fd q ≡ none) ⊎ (Room.get_room_by_fd fd q ≡ some q)
unfolding Room.get_room_by_fd
itself fd q = elim (Option-cases (StdMap.find fd q.student_map)) [
  | inl e ↦ elim (ℕ_discrete fd q.teacher_fd) [
    | yes t ↦ inr (ground arith)
    | no t ↦ elim (ℕ_discrete fd q.white_fd) [
      | yes u ↦ inr (ground arith)
      | no u ↦ inl (ground arith)
    ]
  ]
  | inr (x, e) ↦ inr (ground arith)
]

pub get_room_by_fd-IsSound :
    (fd k : ℕ) (r : Room) (rooms : StdMap Room)
    → All IsSoundAt rooms
    → Manager.get_room_by_fd fd rooms ≡ some (k, r)
    → IsSound k r
unfolding Manager.get_room_by_fd
get_room_by_fd-IsSound fd k r [] us h = absurd (ground arith)
get_room_by_fd-IsSound fd k r ((j, q) ∷ rooms) us h = elim (itself fd q) [
  | inl e ↦ get_room_by_fd-IsSound fd k r rooms us.1 (ground arith)
  | inr e ↦ ground (arith, us.0)
]

pub get_room_by_name-IsSound :
    (name : List ℕ) (k : ℕ) (r : Room) (rooms : StdMap Room)
    → All IsSoundAt rooms
    → Manager.get_room_by_name name rooms ≡ some (k, r)
    → IsSound k r
unfolding Manager.get_room_by_name
get_room_by_name-IsSound name k r [] us h = absurd (ground arith)
get_room_by_name-IsSound name k r ((j, q) ∷ rooms) us h =
    ground (arith, get_room_by_name-IsSound name k r rooms us.1)

pub find-IsSound :
    (k : ℕ) (r : Room) (rooms : StdMap Room)
    → All IsSoundAt rooms
    → StdMap.find k rooms ≡ some r
    → IsSound k r
unfolding StdMap.find
find-IsSound k r [] us h = absurd (ground arith)
find-IsSound k r ((j, q) ∷ rooms) us h = ground (arith, find-IsSound k r rooms us.1)

assign_sound :
    (k : ℕ) (r : Room) (rooms : StdMap Room)
    → IsSound k r
    → All IsSoundAt rooms
    → All IsSoundAt (StdMap.assign k r rooms)
unfolding StdMap.assign
assign_sound k r [] u us = tt
assign_sound k r ((j, q) ∷ rooms) u us = ground (arith, assign_sound k r rooms u us.1)

-- Writing a room back.
pub assign-IsWell :
    {ks : List ℕ} (k : ℕ) (r : Room) (rooms : StdMap Room)
    → IsSound k r
    → IsWell ks rooms
    → IsWell ks (StdMap.assign k r rooms)
assign-IsWell k r rooms u w = record {
  ordered = assign-IsOrdered k r rooms w.ordered;
  sound = assign_sound k r rooms u w.sound;
  same = keys-assign k r rooms ∙ w.same;
}

-- Whatever a handler is given, it keeps the rooms well where it returns.
abbrev pub Keeps : Handler → Type 0
Keeps h =
    (ks : List ℕ) (env : Env) (p : ℕ) (w w' : Server)
    → IsWell ks w.room_map
    → h env p w ≡ some w'
    → IsWell ks w'.room_map

-- A handler that leaves the rooms alone.
abbrev pub Spares : Handler → Type 0
Spares h = (env : Env) (p : ℕ) (w w' : Server) → h env p w ≡ some w' → w'.room_map ≡ w.room_map

pub Keeps-Spares : (h : Handler) → Spares h → Keeps h
Keeps-Spares h s ks env p w w' u e = subst (IsWell ks) (sym (s env p w w' e)) u
