-- ===== src/Gateway/App/Lifecycle.antt =====
-- The gateway over any sequence of its calls.
use connext_triad.Prelude.{Bool, false, none, [], ◌≡◌, if◌then◌else◌}
use connext_triad.Async as Async
use connext_triad.Async.{Processor, Handlers, Worker, waiting, ended, loop}
use connext_triad.Async.Drain.{execute_all, Reports}
use connext_triad.Ipc.Transport as Ipc
use connext_triad.Gateway.App.{GatewayApp, stop, unheard}
use connext_triad.Gateway.App.Calls.{Kept, Served, endpoint_running, is_connected}

module _ {World : Type 0} (hs : Handlers) (reports : Reports hs) where
  pub record Ready (app : GatewayApp World) (on : Bool) : Type 0 where
    pub kept : Kept hs app.async
    pub served : Served app
    pub alive : app.aborted ≡ false
    pub endpoint : endpoint_running app.ipc ≡ on

  -- What a stop of this gateway does.
  pub record Stops (app : GatewayApp World) : Type 0 where
    pub calls : (stop app).1 ≡ (
        if is_connected app.ipc
        then execute_all hs app.async.q
        else if app.async.running
        then unheard (execute_all hs app.async.q)
        else [])
    pub queue : (stop app).0.async.q ≡ (if app.async.running then [] else app.async.q)
    pub ended : (stop app).0.async.running ≡ false
    pub adapter : (stop app).0.ipc ≡ none
