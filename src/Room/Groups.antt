-- ===== src/Room/Groups.antt =====
-- content/room.cpp: the division of the students into groups, which the start of the house-building
-- game does not use now, and the courses by name.
use teachserver.Base.{
  ℕ, ◌+◌, Option, none, some, List, [], ◌∷◌, ◌==◌, leb, ◌≤◌, ◌≡◌, refl, arith, length,
  if◌then◌else◌, bytes_eq,
}
use teachserver.StdMap
use teachserver.StdMap.{StdMap}
use teachserver.Student.{Student}
use teachserver.Course.{Course}
use teachserver.House.Group.{Group, new_group, add_student_to_group}
use teachserver.Room.{Room}
use teachserver.Room.Games.{address}

unfoldable pub course_by_name : List ℕ → List Course → Option Course
unfolding bytes_eq
course_by_name name [] = none
course_by_name name (c ∷ cs) = if bytes_eq c.name name then some c else course_by_name name cs

unfoldable pub get_course_by_name : List ℕ → Room → Option Course
unfolding course_by_name
get_course_by_name name r = course_by_name name r.course_list

-- "BuildHouse_Group%d", with the text that `printf` makes of an `int` by `%d` as a parameter.
unfoldable pub numbered_group : (ℕ → List ℕ) → ℕ → Group
unfolding new_group
numbered_group decimal n = new_group (
    66
    ∷ 117
    ∷ 105
    ∷ 108
    ∷ 100
    ∷ 72
    ∷ 111
    ∷ 117
    ∷ 115
    ∷ 101
    ∷ 95
    ∷ 71
    ∷ 114
    ∷ 111
    ∷ 117
    ∷ 112
    ∷ decimal n)

-- The loop: the size of a group, `p_group`, the key under which the map points to it, or none where it
-- does not, `icnt`, `iGroup`, the students left, and the groups so far. What is added through the
-- pointer is seen in the map; `insert` leaves a key that is there.
unfoldable pub fill_groups :
    (ℕ → List ℕ)
    → ℕ
    → Group
    → Option ℕ
    → ℕ
    → ℕ
    → StdMap (Option Student)
    → StdMap Group
    → StdMap Group
unfolding add_student_to_group numbered_group
fill_groups decimal n g place cnt next [] groups = groups
fill_groups decimal n g place cnt next ((fd, student) ∷ m) groups =
    let g1 = (add_student_to_group fd (address student) g).0 in
    let groups1 : StdMap Group = elim place [
      | none ↦ groups
      | some k ↦ StdMap.assign k g1 groups
    ] in
    let g2 = numbered_group decimal next in
    let place2 : Option ℕ = elim (StdMap.find next groups1) [
      | none ↦ some next
      | some old ↦ none
    ] in
    let groups2 = StdMap.insert next g2 groups1 in
    let opened = fill_groups decimal n g2 place2 0 (next + 1) m groups2 in
    let filled = fill_groups decimal n g1 place (cnt + 1) next m groups1 in
    if cnt == n then opened else filled

-- CRoom::init_buildhouse_group; a number below 1 is refused.
unfoldable pub init_buildhouse_group : (ℕ → List ℕ) → ℕ → Room → Room
unfolding fill_groups numbered_group
init_buildhouse_group decimal n r = if n == 0 then r else if leb 2147483648 n then r else record r {
  buildhouse_groups =
      fill_groups decimal n (numbered_group decimal 1) none 0 2 r.student_map r.buildhouse_groups;
}

few :
    (decimal : ℕ → List ℕ) (n cnt next : ℕ) (g : Group) (m : StdMap (Option Student))
    (groups : StdMap Group)
    → cnt + length m ≤ n
    → fill_groups decimal n g none cnt next m groups ≡ groups
unfolding fill_groups
few decimal n cnt next g [] groups h = refl
few decimal n cnt next g ((fd, student) ∷ m) groups h = ground (
  arith,
  few decimal n (cnt + 1) next (add_student_to_group fd (address student) g).0 m groups
      (omega (arith, h)),
)

-- With at most as many students as a group is meant to have, the room gets no group at all: the first
-- group is not put into the room's map.
pub init_buildhouse_group-loses :
    (decimal : ℕ → List ℕ) (n : ℕ) (r : Room)
    → length r.student_map ≤ n
    → init_buildhouse_group decimal n r ≡ r
unfolding init_buildhouse_group
init_buildhouse_group-loses decimal n r h =
    let same =
      few decimal n 0 2 (numbered_group decimal 1) r.student_map r.buildhouse_groups
        (omega (arith, h)) in
    ground (arith, same)
