-- ===== src/System.antt =====
-- The program while it runs: the event loop (Evloop.cpp), the receive task (RecvTask.cpp) and the send
-- task (SendTask.cpp), which share the server's state. Each step is one callback or one round of a
-- task, run to its end; what the operating system, the clock and the database answer stands in the
-- event.
pub mod Relay
pub mod Ordered
pub mod Messages
pub mod Games
pub mod Houses
pub mod Clients
pub mod Logins
pub mod Closing
pub mod Table
pub mod Rooms
pub mod Reach
pub mod Exhaustion
pub mod Holdings
use teachserver.Base.{ℕ, Bool, true, false, Option, none, some, List, [], ◌∷◌, ◌++◌, ◌>>=◌}
use teachserver.StdMap.{StdMap}
use teachserver.Server.{Server, Env}
use teachserver.Handler.Forward.{Handler}
use teachserver.Dispatch.Work.{work_step}
use teachserver.SendTask.{SendAnswer, Sent, send_step}
use teachserver.Evloop.{Loop, RecvAnswer, accept_cb, recv_cb}

pub record System : Type 0 where
  pub loop : Loop
  pub server : Server

-- A connection that `accept` returned and the time; a socket that is ready, the time and what it
-- gives; a round of the receive task; a round of the send task with what the socket takes.
pub data Event : Type 0 where
  accepts : Option ℕ → ℕ → Event
  arrives : ℕ → ℕ → List RecvAnswer → Event
  handles : Env → Event
  sends : List SendAnswer → Event

-- What the step put on the wire, and the state after it.
unfoldable pub step : StdMap Handler → Event → System → Option (List Sent × System)
unfolding accept_cb recv_cb work_step send_step
step m (accepts fd now) s = do l ← accept_cb fd now s.loop; some ([], record s { loop = l })
step m (arrives fd now answers) s = do
  (l, w) ← recv_cb fd now answers s.loop s.server
  some ([], record { loop = l; server = w })
step m (handles env) s = do
  (go_on, w) ← work_step m env s.server
  some ([], record s { server = w })
step m (sends answers) s = do
  (out, single) ← send_step answers s.server.single
  some (out, record s { server = record s.server { single = single } })

-- A run of events, with all that was sent, in order.
unfoldable pub run : StdMap Handler → List Event → System → Option (List Sent × System)
unfolding step
run m [] s = some ([], s)
run m (e ∷ events) s = do
  (out, s') ← step m e s
  (later, s'') ← run m events s'
  some (out ++ later, s'')
