-- ===== src/Dispatch/Laws.antt =====
-- Registration: the first entry for a type is the one that is found.
use teachserver.Base.{ℕ, ◌≡◌, Option, none, some, List, [], ◌∷◌, arith, ◌==◌, if◌then◌else◌}
use teachserver.StdMap
use teachserver.StdMap.{StdMap}
use teachserver.StdMap.Laws.{IsOrdered, find-insert, insert-IsOrdered}
use teachserver.Protocol.{CommandType, code}
use teachserver.Handler.Forward.{Handler}
use teachserver.Dispatch.{handlers, register, init_handlers, get_handler}

-- The first entry of a list whose type has the number.
unfoldable pub entry : ℕ → List (CommandType × Handler) → Option Handler
entry n [] = none
entry n ((t, h) ∷ rest) = if code t == n then some h else entry n rest

abbrev or_else : Option Handler → Option Handler → Option Handler
or_else none y = y
or_else (some h) y = some h

find-register :
    (n : ℕ) (table : List (CommandType × Handler)) (m : StdMap Handler)
    → IsOrdered m
    → StdMap.find n (register table m) ≡ or_else (StdMap.find n m) (entry n table)
unfolding register entry
find-register n [] m o = ground arith
find-register n ((t, h) ∷ rest) m o = ground (
  arith,
  find-register n rest (StdMap.insert (code t) h m),
  insert-IsOrdered (code t) h m o,
  find-insert (code t) n h m o,
)

-- A message's number has the handler of its entry in MSGHANDLE, and a number with no entry has none.
pub get_handler-init_handlers :
    (house_num house_info : Handler) (n : ℕ)
    → get_handler n (init_handlers house_num house_info) ≡ entry n (handlers house_num house_info)
unfolding get_handler init_handlers
get_handler-init_handlers house_num house_info n =
    unfold StdMap.find in find-register n (handlers house_num house_info) [] tt
