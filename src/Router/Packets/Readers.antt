-- ===== src/Router/Packets/Readers.antt =====
-- internal/router/router.go: `Run`, which starts the readers of the transports.
use gouter.Base.{string_eq, List, [], ◌∷◌, Option, String}
use gouter.Transport.{Packet}
use gouter.Router.Packets.{Router, Transport, Outcome, run_transport_reader}

module _ {S : Type 0} (r : Router S) where
  -- The loop that starts the readers, with what each meets until it ends.
  unfoldable pub run_readers :
      List (String × Transport) → (String → List (Option Packet)) → List (String × List Outcome)
  run_readers [] events = []
  run_readers ((name, t) ∷ ts) events =
      (name, run_transport_reader r name (events name)) ∷ run_readers ts events

  -- The transports are those that are there at the start; one that is added later has no reader.
  unfoldable pub run_router : (String → List (Option Packet)) → List (String × List Outcome)
  run_router events = run_readers r.transports events
