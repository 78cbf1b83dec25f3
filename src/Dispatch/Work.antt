-- ===== src/Dispatch/Work.antt =====
-- RecvTask.cpp: the loop that handles the messages which were received.
use teachserver.Base.{Bool, true, false, Option, none, some, ◌>>=◌, ◌==◌, if◌then◌else◌}
use teachserver.StdMap.{StdMap}
use teachserver.QueueT.{dequeue}
use teachserver.Single.{null}
use teachserver.Server.{Server, Env, command}
use teachserver.Handler.Forward.{Handler}
use teachserver.Dispatch.{get_handler}

-- One round of the loop. The flag is false where the task ends. A message with no handler is dropped
-- without going back to the pool.
unfoldable pub work_step : StdMap Handler → Env → Server → Option (Bool × Server)
unfolding dequeue get_handler
work_step m env w = elim (dequeue w.single.recvqueue) [
  | none ↦ some (true, w)
  | some (p, rest) ↦
      let w' = record w { single = record w.single { recvqueue = rest } } in
      if p == null
      then some (false, w')
      else if (w'.single.bufs p).ptr == null
      then some (true, w')
      else elim (get_handler (command p w') m) [
        | none ↦ some (true, w')
        | some handler ↦ handler env p w' >>= λ w''. some (true, w'')
      ]
]
