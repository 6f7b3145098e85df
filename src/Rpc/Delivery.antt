-- ===== src/Rpc/Delivery.antt =====
-- The answer on its way through the transport to the client.
use connext_triad.Prelude.{
  ℕ, ◌<◌, ◌≤◌, ◌^◌, ◌≡◌, refl, true, some, List, [], ◌∷◌, length, ◌∙◌, arith,
}
use connext_triad.Async.{CommandEvent}
use connext_triad.Ipc.Frame.{Header, msg_frame_rsp}
use connext_triad.Ipc.Frame.RoundTrip.{sent_header}
use connext_triad.Ipc.Transport.{
  server, Peer, DkmRtpIpc, Network, datagram, to, response, Callbacks, dispatch, receive, is_whole,
}
use connext_triad.Ipc.Transport.Laws.{receive-send_frame}
use connext_triad.Rpc.Json.{JsonLib}
use connext_triad.Rpc.Backend.{Backend}
use connext_triad.Rpc.Process.{IpcAdapter, process_request, respond, send_json}

dispatch-response :
    (cb : Callbacks) (h : Header) (payload : List ℕ)
    → h.type ≡ msg_frame_rsp
    → cb.on_response ≡ true
    → dispatch cb h payload ≡ response h payload ∷ []
unfolding dispatch
dispatch-response cb h payload e r = ground (arith, e, r)

module _ {lib : JsonLib} (backend : Backend lib) where
  -- The bytes that answer a request.
  abbrev pub answer_bytes : CommandEvent → IpcAdapter backend → List ℕ
  answer_bytes ev a = lib.to_cbor (lib.object (respond backend ev.body a.mgr).0)

  -- If the server's socket is open and it has a peer, and the answer to a request is not empty and
  -- at most 65512 bytes long, and the correlation id and the time fit their fields, then the answer
  -- goes to that peer in one frame, and an endpoint with a response callback that receives it makes
  -- one call: of that callback, with the request's correlation id and the answer's bytes.
  pub process_request-response :
      (net : Network) (now_ns : ℕ) (ev : CommandEvent) (a : IpcAdapter backend) (e : DkmRtpIpc)
      (peer source : Peer)
      → a.ipc.sock ≡ true
      → a.ipc.role ≡ server
      → a.ipc.last_peer ≡ some peer
      → ev.corr_id < 2 ^ 32
      → now_ns < 2 ^ 64
      → 0 < length (answer_bytes ev a)
      → length (answer_bytes ev a) ≤ 65512
      → e.cb.on_response ≡ true
      → (message : List ℕ) × (h : Header) × ((process_request backend net now_ns ev a).1
          ≡ datagram (to peer) message (is_whole (net message) (length message)))
        × (h.corr_id ≡ ev.corr_id)
        × ((receive source message e).1 ≡ response h (answer_bytes ev a) ∷ [])
  unfolding process_request send_json
  process_request-response net now_ns ev a e peer source s r l hc hn h0 hl cb =
      let (message, sent, calls) =
        receive-send_frame net now_ns msg_frame_rsp ev.corr_id (answer_bytes ev a) a.ipc e peer
          source s r l (omega arith) hc hn h0 hl in
      (
        message,
        sent_header msg_frame_rsp ev.corr_id (answer_bytes ev a) now_ns,
        sent,
        refl,
        calls ∙ dispatch-response e.cb _ (answer_bytes ev a) refl cb,
      )
