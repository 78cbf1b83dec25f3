-- ===== src/System/Reach.antt =====
-- The states that the running program reaches, and what holds in all of them.
use teachserver.Base.{
  ℕ, ◌≡◌, sym, refl, some, List, [], ◌∷◌, arith, All, Option-cases, inl, inr, Bool,
}
use mathlib.Core.Path.{subst}
use teachserver.StdMap
use teachserver.StdMap.{StdMap, keys}
use teachserver.StdMap.Laws.{IsOrdered, insert-IsOrdered}
use teachserver.QueueT.{dequeue}
use teachserver.Single.{block, pool_malloc}
use teachserver.Room.{Room, new_room}
use teachserver.Manager
use teachserver.Manager.{RoomRow, load_rooms}
use teachserver.Server.{Server, Env, command}
use teachserver.Handler.Forward.{Handler}
use teachserver.Dispatch.{init_handlers, get_handler}
use teachserver.Dispatch.Work.{work_step}
use teachserver.SendTask.Delivery.{List-cases}
use teachserver.SendTask.{Sent, send_step}
use teachserver.Evloop.{
  Loop, RecvAnswer, accept_cb, recv_n, body_length, store, recv_cb, recv_body, close_fd,
}
use teachserver.System.{System, Event, accepts, arrives, handles, sends, step}
use teachserver.System.Ordered.{IsSound, IsSoundAt, IsWell, Keeps}
use teachserver.System.Closing.{del_client-IsWell}
use teachserver.System.Table.{get_handler-Keeps}

-- The states that come after `s`, one event after the other.
pub data Reach (m : StdMap Handler) (s : System) : System → Type 0 where
  at_start : Reach m s s
  after :
      (e : Event) (t u : System) (out : List Sent)
      → Reach m s t
      → step m e t ≡ some (out, u)
      → Reach m s u

-- The rooms that CRoomManager::init loads.
insert_sound :
    (k : ℕ) (r : Room) (rooms : StdMap Room)
    → IsSound k r
    → All IsSoundAt rooms
    → All IsSoundAt (StdMap.insert k r rooms)
unfolding StdMap.insert
insert_sound k r [] u us = (u, tt)
insert_sound k r ((j, q) ∷ rooms) u us = ground (arith, u, us, insert_sound k r rooms u us.1)

load_rooms-IsWell :
    (rows : List RoomRow) (rooms : StdMap Room)
    → IsOrdered rooms
    → All IsSoundAt rooms
    → IsWell (keys (load_rooms rows rooms)) (load_rooms rows rooms)
unfolding load_rooms new_room
load_rooms-IsWell [] rooms o us = record { ordered = o; sound = us; same = refl }
load_rooms-IsWell (row ∷ rows) rooms o us =
    load_rooms-IsWell rows _ (insert-IsOrdered row.classroom_id _ rooms o) (
      insert_sound row.classroom_id _ rooms
        (record { id = refl; students = tt; groups = tt; puzzles = tt }) us)

init-IsWell :
    (rows : List RoomRow)
    → IsWell (keys (Manager.init (some rows) []).0) (Manager.init (some rows) []).0
unfolding Manager.init
init-IsWell rows = load_rooms-IsWell rows [] tt tt

-- One step.
close_fd-IsWell :
    {ks : List ℕ} (fd : ℕ) (l l' : Loop) (w w' : Server)
    → IsWell ks w.room_map
    → close_fd fd l w ≡ some (l', w')
    → IsWell ks w'.room_map
unfolding close_fd
close_fd-IsWell fd l l' w w' u h = elim (Option-cases (Manager.del_client fd w.room_map w.single)) [
  | inl e ↦ absurd (ground arith)
  | inr ((rooms, s), e) ↦ ground (arith, del_client-IsWell fd w.room_map rooms w.single s u e)
]

work_step-IsWell :
    {ks : List ℕ} (hn hi : Handler) (env : Env) (w w' : Server) (b : Bool)
    → Keeps hn
    → Keeps hi
    → IsWell ks w.room_map
    → work_step (init_handlers hn hi) env w ≡ some (b, w')
    → IsWell ks w'.room_map
unfolding work_step dequeue
work_step-IsWell hn hi env w w' b kn ki u h = elim (List-cases w.single.recvqueue) [
  | inl e ↦ ground arith
  | inr (p, rest, e) ↦
      let w1 = record w { single = record w.single { recvqueue = rest } } in
      elim (Option-cases (get_handler (command p w1) (init_handlers hn hi))) [
        | inl f ↦ ground arith
        | inr (handler, f) ↦ elim (Option-cases (handler env p w1)) [
          | inl g ↦ ground arith
          | inr (w2, g) ↦
              ground
                (arith, get_handler-Keeps hn hi (command p w1) handler kn ki f _ env p w1 w2 u g)
        ]
      ]
]

store_rooms :
    (p o : ℕ) (cs : List ℕ) (w w' : Server) → store p o cs w ≡ some w' → w'.room_map ≡ w.room_map
unfolding store
store_rooms p o cs w w' h = ground arith

recv_body-IsWell :
    {ks : List ℕ} (p fd now : ℕ) (answers : List RecvAnswer) (l l' : Loop) (w w' : Server)
    → IsWell ks w.room_map
    → recv_body p fd now answers l w ≡ some (l', w')
    → IsWell ks w'.room_map
unfolding recv_body
recv_body-IsWell {ks} p fd now answers l l' w w' u h =
    elim (Option-cases (recv_n answers (body_length (block p w.single).c_len) [])) [
      | inl e ↦ absurd (ground arith)
      | inr (rest, e) ↦ elim (Option-cases (store p 4 rest.bytes w)) [
        | inl f ↦ absurd (ground arith)
        | inr (w1, f) ↦
            let v = subst (IsWell ks) (sym (store_rooms p 4 rest.bytes w w1 f)) u in
            ground (arith, close_fd-IsWell fd l l' w1 w' v)
      ]
    ]

recv_cb-IsWell :
    {ks : List ℕ} (fd now : ℕ) (answers : List RecvAnswer) (l l' : Loop) (w w' : Server)
    → IsWell ks w.room_map
    → recv_cb fd now answers l w ≡ some (l', w')
    → IsWell ks w'.room_map
unfolding recv_cb
recv_cb-IsWell {ks} fd now answers l l' w w' u h =
    let (p, s) = pool_malloc w.single in
    let w1 = record w { single = s } in
    elim (Option-cases (recv_n answers 4 [])) [
      | inl e ↦ absurd (ground arith)
      | inr (head, e) ↦ elim (Option-cases (store p 0 head.bytes w1)) [
        | inl f ↦ absurd (ground arith)
        | inr (w2, f) ↦
            let v = subst (IsWell ks) (sym (store_rooms p 0 head.bytes w1 w2 f)) u in
            ground (
              arith,
              recv_body-IsWell p fd now head.unread l l' w2 w' v,
              close_fd-IsWell fd l l' w2 w' v,
            )
      ]
    ]

step-IsWell :
    {ks : List ℕ} (hn hi : Handler) (e : Event) (s t : System) (out : List Sent)
    → Keeps hn
    → Keeps hi
    → IsWell ks s.server.room_map
    → step (init_handlers hn hi) e s ≡ some (out, t)
    → IsWell ks t.server.room_map
unfolding step
step-IsWell hn hi (accepts fd now) s t out kn ki u h =
    elim (Option-cases (accept_cb fd now s.loop)) [
      | inl e ↦ absurd (ground arith)
      | inr (l, e) ↦ ground arith
    ]
step-IsWell hn hi (arrives fd now answers) s t out kn ki u h =
    elim (Option-cases (recv_cb fd now answers s.loop s.server)) [
      | inl e ↦ absurd (ground arith)
      | inr ((l, w), e) ↦ ground (arith, recv_cb-IsWell fd now answers s.loop l s.server w u e)
    ]
step-IsWell hn hi (handles env) s t out kn ki u h =
    elim (Option-cases (work_step (init_handlers hn hi) env s.server)) [
      | inl e ↦ absurd (ground arith)
      | inr ((b, w), e) ↦ ground (arith, work_step-IsWell hn hi env s.server w b kn ki u e)
    ]
step-IsWell hn hi (sends answers) s t out kn ki u h =
    elim (Option-cases (send_step answers s.server.single)) [
      | inl e ↦ absurd (ground arith)
      | inr ((sent, single), e) ↦ ground arith
    ]

-- In a run whose steps do not overlap, from the rooms that the table of classrooms gave, whatever the
-- clients send and the system calls and the database answer, no room is lost and none is added, every room stands under its own id,
-- the rooms, and in each its students, groups and puzzles, stand in the order of their keys. The
-- two handlers of the rainbow valley are taken to keep that too.
pub Reach-IsWell :
    (hn hi : Handler) (rows : List RoomRow) (s t : System)
    → Keeps hn
    → Keeps hi
    → s.server.room_map ≡ (Manager.init (some rows) []).0
    → Reach (init_handlers hn hi) s t
    → IsWell (keys s.server.room_map) t.server.room_map
Reach-IsWell hn hi rows s _ kn ki e at_start =
    subst (λ rooms. IsWell (keys rooms) rooms) (sym e) (init-IsWell rows)
Reach-IsWell hn hi rows s u kn ki e (after event t _ out r h) =
    step-IsWell hn hi event t u out kn ki (Reach-IsWell hn hi rows s t kn ki e r) h
