-- ===== src/House/Group.antt =====
-- content/makehouse.cpp: CGroup.
use teachserver.Base.{
  ℕ, ◌+◌, ◌*◌, ◌%◌, Bool, true, false, Option, none, some, List, [], ◌∷◌, ◌>>=◌, ◌==◌, ltb, ◌&&◌,
  not, if◌then◌else◌,
}
use teachserver.StdMap
use teachserver.StdMap.{StdMap}
use teachserver.Protocol.{CommandType, code}
use teachserver.Single.{
  Single, null, get_fd, block, with_block, set_fd, reset, pool_malloc, pool_free, send_enqueue,
  copy_object,
}
use teachserver.House.{MakeHouse, empty_house}

-- The map's values are the addresses of the students.
pub record Group : Type 0 where
  pub group_name : List ℕ
  pub make_house : MakeHouse
  pub student_map : StdMap ℕ

unfoldable pub new_group : List ℕ → Group
unfolding empty_house
new_group name = record { group_name = name; make_house = empty_house; student_map = [] }

unfoldable pub add_student_to_group : ℕ → ℕ → Group → Group × Bool
add_student_to_group fd stu g =
    if ltb 0 fd && not (stu == null)
    then (record g { student_map = StdMap.insert fd stu g.student_map }, true)
    else (g, false)

-- The loop that answers whether the group has the client.
unfoldable pub has_client : ℕ → StdMap ℕ → Bool
has_client fd [] = false
has_client fd ((k, stu) ∷ m) = if k == fd then true else has_client fd m

unfoldable pub get_group_by_fd : ℕ → Group → Option Group
unfolding has_client
get_group_by_fd fd g = if has_client fd g.student_map then some g else none

unfoldable pub get_student_by_fd : ℕ → Group → ℕ
get_student_by_fd fd g = elim (StdMap.find fd g.student_map) [ none ↦ null | some stu ↦ stu ]

-- `*p_buf = *p`: Buf::operator= copies the whole memory.
unfoldable pub assign_buf : ℕ → ℕ → Single → Single
assign_buf dst src s = with_block dst (block src s) s

unfoldable pub broadcast_loop : ℕ → StdMap ℕ → Single → Option Single
unfolding pool_malloc assign_buf send_enqueue
broadcast_loop p [] s = some s
broadcast_loop p ((fd, stu) ∷ m) s =
    let (p_buf, s') = pool_malloc s in
    let rest = broadcast_loop p m (send_enqueue p_buf (assign_buf p_buf p s')) in
    if p_buf == null then none else rest

unfoldable pub broadcast : ℕ → Group → Single → Option Single
unfolding broadcast_loop
broadcast p g s = broadcast_loop p g.student_map s

-- `((MSG_HEAD *)p)->cType = eType`, where p is the object: the upper half of its `ptr_`.
unfoldable pub overwrite_ptr : ℕ → ℕ → Single → Single
overwrite_ptr p t s = record s {
  bufs = λ q.
      if q == p
      then record (s.bufs p) { ptr = (s.bufs p).ptr % 4294967296 + 4294967296 * t }
      else s.bufs q;
}

-- The loop of sendToOtherStudent. The flag is false where it returned early.
unfoldable pub send_loop : ℕ → ℕ → StdMap ℕ → Single → Option (Bool × Single)
unfolding pool_malloc copy_object overwrite_ptr set_fd send_enqueue
send_loop p t [] s = some (true, s)
send_loop p t ((fd, stu) ∷ m) s = elim (get_fd p s == fd) [
  | true ↦ send_loop p t m s
  | false ↦
      let (pp, s') = pool_malloc s in
      elim (pp == null) [
        | true ↦ some (false, s')
        | false ↦ copy_object pp p ((s.bufs p).ptr % 4294967296) s' >>= λ c.
            send_loop p t m (send_enqueue pp (set_fd pp fd (overwrite_ptr p t c)))
      ]
]

unfoldable pub send_to_other_student : ℕ → CommandType → Group → Single → Option Single
unfolding send_loop reset pool_free code
send_to_other_student p e_type g s = do
  r ← send_loop p (code e_type) g.student_map s
  if r.0 then some (pool_free p (reset p r.1)) else some r.1
