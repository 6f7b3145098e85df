-- ===== src/Ipc/Transport/Laws.antt =====
-- What an endpoint sends and what it hands on.
use connext_triad.Prelude.{
  ℕ, ◌+◌, ◌≤◌, ◌<◌, ◌≡◌, ◌^◌, true, Option, none, some, List, [], ◌∷◌, ◌++◌, length, take, arith,
  ap, ◌∙◌, inl, inr, ap₂, sym, Option-cases, take_of_le, length-take_gt,
}
use connext_triad.Ipc.Bytes.{AreBytes}
use connext_triad.Ipc.Frame.{Header, packet, parse, to_wire, to_bytes, msg_frame_req, msg_rsp_ack}
use connext_triad.Ipc.Frame.RoundTrip.{parse-packet, parse-packet_nil, parse_sound, sent_header}
use connext_triad.Ipc.Transport.{
  server, Peer, Callbacks, request, DkmRtpIpc, Network, datagram, to, send_raw, send_server,
  send_frame, send_ack, dispatch, receive, remember, handle, buffer_size, is_whole,
}

pub length-packet :
    (type corr_id : ℕ) (payload : List ℕ) (now_ns : ℕ)
    → length (packet type corr_id payload now_ns) ≡ 24 + length payload
unfolding packet
length-packet type corr_id payload now_ns = omega arith

length_cut : (bytes : List ℕ) → 24 < length bytes → 24 < length (take buffer_size bytes)
length_cut bytes h = length-take_gt 24 buffer_size bytes h (omega arith)

pub receive_calls :
    (source : Peer) (bytes : List ℕ) (d : DkmRtpIpc)
    → length bytes ≤ 65536
    → (receive source bytes d).1 ≡ handle d.cb (parse bytes)
unfolding receive
receive_calls source bytes d h =
    ap (λ b. handle d.cb (parse b)) (take_of_le buffer_size bytes (omega arith))

pub send_raw-server :
    (net : Network) (now_ns type corr_id : ℕ) (payload : List ℕ) (d : DkmRtpIpc) (peer : Peer)
    → d.sock ≡ true
    → d.role ≡ server
    → d.last_peer ≡ some peer
    → (send_raw net now_ns type corr_id payload d).1
      ≡ datagram (to peer) (packet type corr_id payload now_ns) (
          is_whole
            (net (packet type corr_id payload now_ns))
            (length (packet type corr_id payload now_ns)))
unfolding send_raw
send_raw-server net now_ns type corr_id payload d peer s r l =
    rw (s, send_raw) (rw (r, send_raw) (rw (l, send_raw)))

-- A server with an open socket and a peer stays one.
pub send_raw-kept :
    (net : Network) (now_ns type corr_id : ℕ) (payload : List ℕ) (d : DkmRtpIpc) (peer : Peer)
    → d.sock ≡ true
    → d.role ≡ server
    → d.last_peer ≡ some peer
    → ((send_raw net now_ns type corr_id payload d).0.sock ≡ true)
      × ((send_raw net now_ns type corr_id payload d).0.role ≡ server)
      × ((send_raw net now_ns type corr_id payload d).0.last_peer ≡ some peer)
unfolding send_raw send_server
send_raw-kept net now_ns type corr_id payload d peer s r l = ground (arith, s, r, l)

-- If a server with an open socket and a peer sends a payload that is not empty and at most 65512
-- bytes long, with type, correlation id and time that fit their fields, then the datagram goes to
-- that peer, and any endpoint that receives it makes exactly the calls of the dispatch on the
-- header and payload that were sent.
pub receive-send_frame :
    (net : Network) (now_ns type corr_id : ℕ) (payload : List ℕ) (d e : DkmRtpIpc)
    (peer source : Peer)
    → d.sock ≡ true
    → d.role ≡ server
    → d.last_peer ≡ some peer
    → type < 2 ^ 16
    → corr_id < 2 ^ 32
    → now_ns < 2 ^ 64
    → 0 < length payload
    → length payload ≤ 65512
    → (message : List ℕ) × ((send_frame net now_ns type corr_id payload d).1
        ≡ datagram (to peer) message (is_whole (net message) (length message)))
      × ((receive source message e).1
          ≡ dispatch e.cb (sent_header type corr_id payload now_ns) payload)
unfolding send_frame handle
receive-send_frame net now_ns type corr_id payload d e peer source s r l ht hc hn h0 hl = (
  packet type corr_id payload now_ns,
  send_raw-server net now_ns type corr_id payload d peer s r l,
  receive_calls source (packet type corr_id payload now_ns) e
        (omega (arith, length-packet type corr_id payload now_ns))
      ∙ ap (handle e.cb) (parse-packet type corr_id payload now_ns ht hc h0 (omega arith) hn),
)

dispatch-request :
    (cb : Callbacks) (k h : Header) (rest payload : List ℕ)
    → dispatch cb k rest ≡ request h payload ∷ []
    → (k ≡ h) × (rest ≡ payload) × (k.type ≡ msg_frame_req) × (cb.on_request ≡ true)
unfolding dispatch
dispatch-request cb k h rest payload e = ground arith

handle-none :
    (cb : Callbacks) (h : Header) (payload : List ℕ) (o : Option (Header × List ℕ))
    → o ≡ none
    → handle cb o ≡ request h payload ∷ []
    → ⊥
unfolding handle
handle-none cb h payload o p e = ground arith

handle-request :
    (cb : Callbacks) (o : Option (Header × List ℕ)) (k h : Header) (rest payload : List ℕ)
    → o ≡ some (k, rest)
    → handle cb o ≡ request h payload ∷ []
    → (k ≡ h) × (rest ≡ payload) × (k.type ≡ msg_frame_req) × (cb.on_request ≡ true)
unfolding handle
handle-request cb o k h rest payload p e =
    dispatch-request cb k h rest payload (sym (ap (handle cb) p) ∙ e)

-- If an endpoint that receives a datagram of at most 65536 bytes calls the request handler, then
-- the handler is set, the datagram is the wire form of the header that the handler gets, followed
-- by exactly the payload that it gets, and the header has the type of a request and the length of
-- the payload.
pub receive-request :
    (source : Peer) (bytes : List ℕ) (d : DkmRtpIpc) (h : Header) (payload : List ℕ)
    → AreBytes bytes
    → length bytes ≤ 65536
    → (receive source bytes d).1 ≡ request h payload ∷ []
    → (bytes ≡ to_bytes (to_wire h) ++ payload)
      × (h.type ≡ msg_frame_req)
      × (h.length ≡ length payload)
      × (d.cb.on_request ≡ true)
receive-request source bytes d h payload b l e = elim (Option-cases (parse bytes)) [
  | inl p ↦
      absurd (handle-none d.cb h payload (parse bytes) p (sym (receive_calls source bytes d l) ∙ e))
  | inr ((k, rest), p) ↦
      let (same, cut, kind, set) =
        handle-request d.cb (parse bytes) k h rest payload p
          (sym (receive_calls source bytes d l) ∙ e) in
      let (framed, states, _) =
        parse_sound bytes h payload b (p ∙ ap₂ (λ g r. some (g, r)) same cut) in
      (framed, ap (λ g. g.type) (sym same) ∙ kind, states, set)
]

-- An acknowledgement of a server with an open socket and a peer is sent to that peer, but an
-- endpoint that receives it, whatever callbacks it has, makes no call.
pub receive-send_ack :
    (net : Network) (now_ns corr_id : ℕ) (d e : DkmRtpIpc) (peer source : Peer)
    → d.sock ≡ true
    → d.role ≡ server
    → d.last_peer ≡ some peer
    → (message : List ℕ) × ((send_ack net now_ns corr_id d).1
        ≡ datagram (to peer) message (is_whole (net message) (length message)))
      × ((receive source message e).1 ≡ [])
unfolding send_ack handle
receive-send_ack net now_ns corr_id d e peer source s r l = (
  packet msg_rsp_ack corr_id [] now_ns,
  send_raw-server net now_ns msg_rsp_ack corr_id [] d peer s r l,
  receive_calls source (packet msg_rsp_ack corr_id [] now_ns) e
        (omega (arith, length-packet msg_rsp_ack corr_id [] now_ns))
      ∙ ap (handle e.cb) (parse-packet_nil msg_rsp_ack corr_id now_ns),
)

remember_state :
    (source : Peer) (recvd : ℕ) (d : DkmRtpIpc)
    → d.sock ≡ true
    → d.role ≡ server
    → 24 < recvd
    → ((remember source recvd d).sock ≡ true)
      × ((remember source recvd d).role ≡ server)
      × ((remember source recvd d).last_peer ≡ some source)
unfolding remember
remember_state source recvd d s r h = ground arith

receive_state :
    (source : Peer) (bytes : List ℕ) (d : DkmRtpIpc)
    → d.sock ≡ true
    → d.role ≡ server
    → 24 < length bytes
    → ((receive source bytes d).0.sock ≡ true)
      × ((receive source bytes d).0.role ≡ server)
      × ((receive source bytes d).0.last_peer ≡ some source)
unfolding receive
receive_state source bytes d s r h =
    remember_state source (length (take buffer_size bytes)) d s r (length_cut bytes h)

-- If a server with an open socket receives a datagram longer than a header, then the next message
-- that it sends goes to the sender of that datagram, also when the datagram was no valid message.
pub send_frame-receive :
    (net : Network) (now_ns type corr_id : ℕ) (payload bytes : List ℕ) (source : Peer)
    (d : DkmRtpIpc)
    → d.sock ≡ true
    → d.role ≡ server
    → 24 < length bytes
    → (message : List ℕ) × ((send_frame net now_ns type corr_id payload
          (receive source bytes d).0).1
        ≡ datagram (to source) message (is_whole (net message) (length message)))
unfolding send_frame
send_frame-receive net now_ns type corr_id payload bytes source d s r h = (
  packet type corr_id payload now_ns,
  send_raw-server net now_ns type corr_id payload (receive source bytes d).0 source
      (receive_state source bytes d s r h).0 (receive_state source bytes d s r h).1
      (receive_state source bytes d s r h).2,
)
