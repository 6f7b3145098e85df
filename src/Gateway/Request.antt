-- ===== src/Gateway/Request.antt =====
-- A request on its way through the gateway and back.
use connext_triad.Prelude.{ℕ, ◌<◌, ◌≤◌, ◌^◌, ◌≡◌, refl, true, List, [], ◌∷◌, length, ◌∙◌, ap, arith}
use connext_triad.Ipc.Frame.{Header, packet, msg_frame_req}
use connext_triad.Ipc.Frame.RoundTrip.{sent_header, parse-packet}
use connext_triad.Ipc.Transport.{Peer, Network, Callbacks, Called, request, dispatch, handle}
use connext_triad.Ipc.Transport.Laws.{receive_calls, length-packet}
use connext_triad.Rpc.Json.{JsonLib}
use connext_triad.Rpc.Backend.{Backend}
use connext_triad.Rpc.Process.{IpcAdapter, posted, on_request, command_event}
use connext_triad.Gateway.{handle_calls, receive_frame}

dispatch-request_frame :
    (cb : Callbacks) (h : Header) (payload : List ℕ)
    → h.type ≡ msg_frame_req
    → cb.on_request ≡ true
    → dispatch cb h payload ≡ request h payload ∷ []
unfolding dispatch
dispatch-request_frame cb h payload e r = ground (arith, e, r)

module _ {lib : JsonLib} (backend : Backend lib) where
  one_request :
      (net : Network) (now_ns : ℕ) (h : Header) (body : List ℕ) (calls : List Called)
      (a : IpcAdapter backend)
      → calls ≡ request h body ∷ []
      → a.post_cmd ≡ true
      → (handle_calls backend net now_ns calls a).1 ≡ posted (command_event backend h body) ∷ []
  unfolding handle_calls on_request
  one_request net now_ns h body calls a e p =
      ap (λ c. (handle_calls backend net now_ns c a).1) e ∙ rw (p, handle_calls) refl

  -- If a client frames a request that is not empty and at most 65512 bytes long, with a correlation
  -- id and a time that fit their fields, then a gateway whose callback and sink are installed posts
  -- exactly one command, with that correlation id and those bytes.
  pub receive_frame-posted :
      (net : Network) (now_ns sent_ns corr_id : ℕ) (body : List ℕ) (peer : Peer)
      (a : IpcAdapter backend)
      → a.ipc.cb.on_request ≡ true
      → a.post_cmd ≡ true
      → corr_id < 2 ^ 32
      → sent_ns < 2 ^ 64
      → 0 < length body
      → length body ≤ 65512
      → (receive_frame backend net now_ns peer (packet msg_frame_req corr_id body sent_ns) a).1
        ≡ posted
            (record { corr_id = corr_id; route = "ipc"; remote = ""; body = body; is_cbor = true })
          ∷ []
  unfolding receive_frame command_event handle
  receive_frame-posted net now_ns sent_ns corr_id body peer a cb p hc hn h0 hl =
      one_request net now_ns (sent_header msg_frame_req corr_id body sent_ns) body _ _
        (receive_calls peer (packet msg_frame_req corr_id body sent_ns) a.ipc
            (omega (arith, length-packet msg_frame_req corr_id body sent_ns))
          ∙ ap (handle a.ipc.cb)
              (parse-packet msg_frame_req corr_id body sent_ns (omega arith) hc h0 (omega arith) hn)
          ∙ dispatch-request_frame a.ipc.cb _ body refl cb)
        p
