-- ===== src/Server.antt =====
-- The state that the handlers share: the singletons `SINGLE` and `ROOMMANAGER`.
use teachserver.Base.{ℕ, ◌+◌, Bool, Option, none, some, List, [], ◌∷◌, ◌==◌, if◌then◌else◌}
use teachserver.StdMap
use teachserver.StdMap.{StdMap}
use teachserver.Single
use teachserver.Single.{Single, Block, block, get_fd}
use teachserver.Room.{Room}
use teachserver.Manager
use teachserver.Database.{Database}

pub record Server : Type 0 where
  pub single : Single
  pub room_map : StdMap Room

-- What a handler gets from outside: the time, the address that `new` returns, the compiler's order
-- of evaluation, the picture file (whether it opens, and what the i-th `read` returns), the database,
-- the bytes on the stack before a local structure is filled, and the text that `printf` makes of a
-- `long` by `%ld`.
pub record Env : Type 0 where
  pub now : ℕ
  pub fresh : ℕ
  pub right_first : Bool
  pub pic_opens : Bool
  pub pic_read : ℕ → ℕ
  pub pic_bytes : ℕ → ℕ → ℕ
  pub db : Database
  pub stack : ℕ → ℕ
  pub ld : ℕ → List ℕ

abbrev pub with_single : (Single → Single) → Server → Server
with_single f w = record w { single = f w.single }

-- A write through a room's pointer.
abbrev pub with_room : ℕ → Room → Server → Server
with_room k r w = record w { room_map = StdMap.assign k r w.room_map }

abbrev pub free : ℕ → Server → Server
free p w = with_single (Single.pool_free p) w

-- `ROOMMANAGER->get_room_by_fd (p->getfd ())`.
abbrev pub room_of : ℕ → Server → Option (ℕ × Room)
room_of p w = Manager.get_room_by_fd (get_fd p w.single) w.room_map

abbrev pub body : ℕ → Server → ℕ → ℕ
body p w = (block p w.single).body

abbrev pub command : ℕ → Server → ℕ
command p w = (block p w.single).c_type

-- The text of a `char[n]` at an offset, up to its NUL; none where the array has none.
unfoldable pub c_str : (ℕ → ℕ) → ℕ → ℕ → Option (List ℕ)
c_str m o ℕ.zero = none
c_str m o (ℕ.suc n) =
    let rest = c_str m (o + 1) n in
    if m o == 0 then some [] else elim rest [ none ↦ none | some cs ↦ some (m o ∷ cs) ]
