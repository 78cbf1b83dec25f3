-- ===== src/Login/Statuses.antt =====
-- content/LoginCheck.cpp: the statuses of a room's students as they stand in the message to the
-- students, `tempbuf`, and as a client reads them.
use teachserver.Base.{
  ℕ, zero, suc, ◌+◌, ◌*◌, ◌%◌, ◌≤◌, ◌≡◌, refl, ap, ◌∙◌, inr, Option, some, List, [], ◌∷◌, arith,
  length, get_u32, put_u32, get_u32-put_u32, get_u32-put_u32_ne,
}
use teachserver.StdMap.{StdMap}
use teachserver.Protocol.{ClientStatus, online, offline, leave_early, no_login, status_code}
use teachserver.Student.{Student}
use teachserver.Login.{gather}

-- A client reads n statuses, the first at an offset: id and status.
abbrev pub read_statuses : (ℕ → ℕ) → ℕ → ℕ → List (ℕ × ℕ)
read_statuses m o zero = []
read_statuses m o (suc n) = (get_u32 m o, get_u32 m (o + 4)) ∷ read_statuses m (o + 8) n

-- The ids, as 32-bit words, and statuses of the students.
abbrev pub statuses : List (ℕ × Student) → List (ℕ × ℕ)
statuses [] = []
statuses ((fd, student) ∷ m) =
    (student.student_id % 4294967296, status_code student.current_status) ∷ statuses m

-- A map with no NULL.
abbrev pub present : List (ℕ × Student) → StdMap (Option Student)
present [] = []
present ((fd, student) ∷ m) = (fd, some student) ∷ present m

status_code_small : (c : ClientStatus) → status_code c % 4294967296 ≡ status_code c
unfolding status_code
status_code_small online = refl
status_code_small offline = refl
status_code_small leave_early = refl
status_code_small no_login = refl

-- The memory after the status of the n-th student, and what a client reads there.
abbrev one_more : ℕ → Student → (ℕ → ℕ) → ℕ → ℕ
one_more n student m =
    put_u32 (put_u32 m (4 + 8 * n) student.student_id) (4 + 8 * n + 4)
      (status_code student.current_status)

one_more_id :
    (n : ℕ) (student : Student) (m : ℕ → ℕ)
    → get_u32 (one_more n student m) (4 + 8 * n) ≡ student.student_id % 4294967296
one_more_id n student m =
    get_u32-put_u32_ne _ (4 + 8 * n + 4) (4 + 8 * n) (status_code student.current_status)
      (inr (omega arith))
    ∙ get_u32-put_u32 m (4 + 8 * n) student.student_id

one_more_status :
    (n : ℕ) (student : Student) (m : ℕ → ℕ)
    → get_u32 (one_more n student m) (4 + 8 * n + 4) ≡ status_code student.current_status
one_more_status n student m =
    get_u32-put_u32 _ (4 + 8 * n + 4) (status_code student.current_status)
    ∙ status_code_small student.current_status

one_more_below :
    (n o : ℕ) (student : Student) (m : ℕ → ℕ)
    → o + 4 ≤ 4 + 8 * n
    → get_u32 (one_more n student m) o ≡ get_u32 m o
one_more_below n o student m h =
    get_u32-put_u32_ne _ (4 + 8 * n + 4) o _ (inr (omega arith))
    ∙ get_u32-put_u32_ne m (4 + 8 * n) o _ (inr (omega arith))

-- What the loop leaves when it starts with n statuses written: it does not fault, the words before
-- stay, and the statuses of the students follow them.
record Gathered (students : List (ℕ × Student)) (n : ℕ) (m m' : ℕ → ℕ) : Type 0 where
  run : gather (present students) n m ≡ some (length students + n, m')
  below : (o : ℕ) → o + 4 ≤ 4 + 8 * n → get_u32 m' o ≡ get_u32 m o
  above : read_statuses m' (4 + 8 * n) (length students) ≡ statuses students

gather_from :
    (students : List (ℕ × Student)) (n : ℕ) (m : ℕ → ℕ)
    → length students + n ≤ 64
    → (m' : ℕ → ℕ) × Gathered students n m m'
unfolding gather
gather_from [] n m h = (m, record { run = ground arith; below = λ o b. refl; above = refl })
gather_from ((fd, student) ∷ students) n m h =
    let (m', g) = gather_from students (n + 1) (one_more n student m) (omega (arith, h)) in
    let id = g.below (4 + 8 * n) (omega arith) ∙ one_more_id n student m in
    let status = g.below (4 + 8 * n + 4) (omega arith) ∙ one_more_status n student m in
    let next : (4 + 8 * n + 8 ≡ 4 + 8 * (n + 1)) = omega arith in
    let more = ap (λ o. read_statuses m' o (length students)) next ∙ g.above in
    (
      m',
      record {
        run = ground (arith, g.run);
        below = λ o b. g.below o (omega (arith, b)) ∙ one_more_below n o student m b;
        above = cc (id, status, more);
      },
    )

-- The loop over at most 64 students, none of them NULL, does not fault, and what it leaves reads
-- back as the id and the status of each of them, in the order of the map.
pub gather-reads :
    (students : List (ℕ × Student)) (m : ℕ → ℕ)
    → length students ≤ 64
    → (m' : ℕ → ℕ) × (gather (present students) 0 m ≡ some (length students, m'))
      × (read_statuses m' 4 (length students) ≡ statuses students)
gather-reads students m h =
    let (m', g) = gather_from students 0 m (omega (arith, h)) in
    (m', ground (arith, g.run), g.above)
