-- ===== src/Gateway.antt =====
-- RtpDdsGateway/src/gateway.cpp: how the parts call each other. The transport hands requests to
-- the RPC adapter, whose sink puts them into the queue; the worker gives each job to the adapter.
pub mod Request
pub mod App
mod Tests
use connext_triad.Prelude.{ℕ, String, Option, List, [], ◌∷◌}
use connext_triad.Async.{Job, sample, command, error}
use connext_triad.Ipc.Transport.{
  Peer, Network, Sent, Called, request, response, event, unhandled, receive,
}
use connext_triad.Rpc.Json.{JsonLib, Result, result, thrown}
use connext_triad.Rpc.Backend.{Backend}
use connext_triad.Rpc.Process.{
  IpcAdapter, Taken, ToJson, on_request, process_request, emit_evt_from_sample,
}

module _ {lib : JsonLib} (backend : Backend lib) where
  -- Of the callbacks only that of requests is set.
  unfoldable pub handle_calls :
      Network → ℕ → List Called → IpcAdapter backend → IpcAdapter backend × List (Taken backend)
  handle_calls net now_ns [] a = (a, [])
  handle_calls net now_ns (request h body ∷ calls) a =
      let (a', taken) = on_request backend net now_ns h body a in
      let (last, others) = handle_calls net now_ns calls a' in (last, taken ∷ others)
  handle_calls net now_ns (response h body ∷ calls) a = handle_calls net now_ns calls a
  handle_calls net now_ns (event h body ∷ calls) a = handle_calls net now_ns calls a
  handle_calls net now_ns (unhandled h ∷ calls) a = handle_calls net now_ns calls a

  -- A datagram that the server receives.
  unfoldable pub receive_frame :
      Network → ℕ → Peer → List ℕ → IpcAdapter backend → IpcAdapter backend × List (Taken backend)
  unfolding handle_calls
  receive_frame net now_ns peer bytes a =
      let (ipc, calls) = receive peer bytes a.ipc in
      handle_calls net now_ns calls (record a { ipc = ipc })

  abbrev frames : Result Sent → List Sent
  frames (thrown what) = []
  frames (result sent) = sent ∷ []

  -- The handlers that the worker calls: the frames that a job sends. What a dump for the log throws
  -- is caught by the worker (Async.execute).
  unfoldable pub execute_job :
      (ℕ → Option ℕ)
      → ToJson backend
      → Network
      → ℕ
      → Job
      → IpcAdapter backend
      → IpcAdapter backend × List Sent
  execute_job pointer json_registry net now_ns (sample ev) a =
      let (a', sent) = emit_evt_from_sample backend pointer json_registry net now_ns ev a in
      (a', frames sent)
  execute_job pointer json_registry net now_ns (command ev) a =
      let (a', sent) = process_request backend net now_ns ev a in (a', sent ∷ [])
  execute_job pointer json_registry net now_ns (error ev) a = (a, [])
