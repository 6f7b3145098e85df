-- ===== src/Gateway/App/Tests.antt =====
-- The gateway from its construction to a stop.
use connext_triad.Ipc.Transport as Ipc
use connext_triad.Prelude.{◌≡◌, refl, true, none, some, List, [], ◌∷◌}
use connext_triad.Async.{Handlers, CommandEvent, command}
use connext_triad.Dds.State.{Counts}
use connext_triad.Gateway.App.{GatewayApp, start_server, start_as, create_adapter, create, listener}
use connext_triad.Gateway.App.Calls.{AppCall, mode, serve, post, round, after, perform, act}

abbrev handlers : Handlers
handlers = record { sample = none; command = some (λ ev. none); error = none }

abbrev no_entities : Counts
no_entities = record {
  participants = 0;
  publishers = 0;
  subscribers = 0;
  writers = 0;
  readers = 0;
  topics = 0;
}

abbrev ping : CommandEvent
ping = record { corr_id = 5; route = "ipc"; remote = ""; body = []; is_cbor = true }

-- Two commands are posted; the worker executes one of them before the stop.
abbrev calls : List AppCall
calls = mode listener ∷ serve true ∷ post (command ping) ∷ post (command ping) ∷ round ∷ []

abbrev app : GatewayApp (Unit {0})
app = after calls (create handlers 1 no_entities tt)

-- A second start while the endpoint runs.
restarted :
    (after
      (serve true ∷ serve true ∷ [])
      (create {World = Unit {0}} handlers 1 no_entities tt)).aborted
    ≡ true
unfolding after perform act start_server start_as Ipc.start create create_adapter
restarted = refl
