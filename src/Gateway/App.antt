-- ===== src/Gateway/App.antt =====
-- `GatewayApp` of RtpDdsGateway/src/gateway.cpp: its construction, the two starts, the mode and
-- `stop`. The receivers of receiver_factory.cpp only log. Of IpcAdapter there is what it owns.
pub mod Calls
pub mod Lifecycle
mod Tests
use connext_triad.Prelude.{
  String, ℕ, suc, length, Bool, true, false, Option, none, some, List, [], ◌∷◌, ◌++◌, if◌then◌else◌,
}
use connext_triad.Async as Async
use connext_triad.Async.{
  Processor, Handlers, Config, Job, Call, on_sample, on_command, on_error, post, take_job,
  finish_job, loop,
}
use connext_triad.Ipc.Transport as Transport
use connext_triad.Ipc.Transport.{
  Started, started, failed, terminated, DkmRtpIpc, Role, server, client, set_callbacks,
}
use connext_triad.Dds.State.{Manager, EventMode, Counts, create_manager}
use connext_triad.Dds.Monad.{Exit}
use connext_triad.Dds.Cleanup.{set_on_sample}
use connext_triad.Dds.Events.{set_event_mode}

pub data DdsReceiveMode : Type 0 where
  listener wait_set : DdsReceiveMode

-- What IpcAdapter owns, and whether it has the function that posts commands.
pub record Adapter : Type 0 where
  pub ipc : DkmRtpIpc
  pub post_cmd : Bool

pub record GatewayApp (World : Type 0) : Type 0 where
  pub mgr : Manager World
  pub ipc : Option Adapter
  pub async : Processor
  pub rx_mode : DdsReceiveMode
  pub rx : Option DdsReceiveMode
  pub aborted : Bool

abbrev pub config : Config
config = record { max_queue = 8192; monitor_sec = 10; drain_stop = true; exec_warn_us = 1000000 }

-- The constructor of IpcAdapter sets the callback of requests.
unfoldable pub create_adapter : Adapter
unfolding Transport.create set_callbacks
create_adapter = record {
  ipc =
      set_callbacks
        (record { on_request = true; on_response = false; on_event = false; on_unhandled = false })
        Transport.create;
  post_cmd = false;
}

unfoldable pub event_mode_of : DdsReceiveMode → EventMode
event_mode_of listener = EventMode.listener
event_mode_of wait_set = EventMode.wait_set

-- The adapter that there is, or a new one.
abbrev pub adapter_of : Option Adapter → Adapter
adapter_of none = create_adapter
adapter_of (some a) = a

unfoldable pub create_receiver : DdsReceiveMode → Option DdsReceiveMode → Option DdsReceiveMode
create_receiver mode none = some mode
create_receiver mode (some rx) = some rx

abbrev pub is_terminated : Started → Bool
is_terminated started = false
is_terminated failed = false
is_terminated terminated = true

-- The calls of handlers that find no adapter do nothing; errors are logged.
abbrev pub unheard : List Call → List Call
unheard [] = []
unheard (on_sample ev ∷ calls) = unheard calls
unheard (on_command ev ∷ calls) = unheard calls
unheard (on_error what location ∷ calls) = on_error what location ∷ unheard calls

-- What the handlers of the worker's calls do, `if (ipc_)`.
unfoldable pub delivered : Option Adapter → List Call → List Call
delivered none calls = unheard calls
delivered (some a) calls = calls

-- What is left of a worker that drains: `none` would be one that never ends.
abbrev joined : Processor → Option (Processor × List Call) → Processor × List Call
joined p none = (p, [])
joined p (some drained) = drained

-- A running worker ends before the stop goes on; the calls are those of its last jobs.
unfoldable pub stop_async : Processor → Processor × List Call
unfolding Async.stop
stop_async p =
    if p.running then joined (Async.stop p) (loop (suc (length p.q)) (Async.stop p)) else (p, [])

module _ {World : Type 0} where
  -- `post_sample` is the function, as the manager knows it, that posts a sample: `post_job`.
  unfoldable pub create : Handlers → ℕ → Counts → World → GatewayApp World
  unfolding Async.create Async.start Async.set_handlers create_manager set_on_sample
  create hs post_sample stats world = record {
    mgr = set_on_sample (some post_sample) (create_manager stats world);
    ipc = none;
    async = Async.set_handlers hs (Async.start (Async.create config));
    rx_mode = wait_set;
    rx = none;
    aborted = false;
  }

  -- `opens` is whether the socket opens; the result is that of the start.
  unfoldable pub start_as : Role → Bool → GatewayApp World → GatewayApp World × Started
  unfolding create_adapter create_receiver Async.start Transport.start
  start_as role opens app =
      let (ipc, result) = Transport.start role opens (adapter_of app.ipc).ipc in
      (
        record app {
          ipc = some (record { ipc = ipc; post_cmd = true });
          rx = create_receiver app.rx_mode app.rx;
          async = Async.start app.async;
          aborted = is_terminated result;
        },
        result,
      )

  unfoldable pub start_server : Bool → GatewayApp World → GatewayApp World × Started
  unfolding start_as
  start_server opens app = start_as server opens app

  unfoldable pub start_client : Bool → GatewayApp World → GatewayApp World × Started
  unfolding start_as
  start_client opens app = start_as client opens app

  -- The mode is stored also where the manager refuses it with an exception.
  unfoldable pub set_receive_mode :
      DdsReceiveMode → GatewayApp World → Exit (Unit {0}) × GatewayApp World
  unfolding event_mode_of set_event_mode
  set_receive_mode mode app =
      let (exit, mgr) = set_event_mode (event_mode_of mode) app.mgr in
      (exit, record app { mgr = mgr; rx_mode = mode })

  -- `async_.stop()`: its last jobs find the adapter that there is.
  unfoldable pub drain : GatewayApp World → GatewayApp World × List Call
  unfolding stop_async delivered
  drain app =
      let (async, calls) = stop_async app.async in
      (record app { async = async }, delivered app.ipc calls)

  -- `ipc_.reset()`
  unfoldable pub reset : GatewayApp World → GatewayApp World
  reset app = record app { ipc = none }

  unfoldable pub stop : GatewayApp World → GatewayApp World × List Call
  unfolding drain reset
  stop app = let (app', calls) = drain app in (reset app', calls)

  -- The calls, and the exception that the caller gets.
  unfoldable pub post_job : Job → GatewayApp World → GatewayApp World × (List Call × Option String)
  unfolding post
  post_job job app = let (async, out) = post job app.async in (record app { async = async }, out)

  -- A round of the worker, where there is a job for it.
  unfoldable pub work : GatewayApp World → GatewayApp World × List Call
  unfolding take_job finish_job delivered
  work app = elim app.async.q [
    | [] ↦ (app, [])
    | job ∷ rest ↦
        if app.async.running
        then (let (async, calls) = finish_job job (record app.async { q = rest }) in
            (record app { async = async }, delivered app.ipc calls))
        else (app, [])
  ]
