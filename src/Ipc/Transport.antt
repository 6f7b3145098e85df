-- ===== src/Ipc/Transport.antt =====
-- DkmRtpIpc/include/dkmrtp_ipc.hpp and DkmRtpIpc/src/dkmrtp_ipc.cpp: the endpoint of the UDP
-- transport, what it sends and how it answers a received datagram. The socket calls are arguments:
-- whether the socket opens, and the count that a send reports (`none` for an error). A read of the
-- send buffer beyond its end, which C++ leaves undefined, is the result `out_of_bounds`.
pub mod Laws
pub mod Client
use connext_triad.Prelude.{
  ℕ, ◌+◌, ◌-◌, ◌%◌, ◌^◌, String, Bool, true, false, Option, none, some, List, [], ◌∷◌, ◌++◌, length,
  take, leb, ltb, ◌==◌, nat_eq, if◌then◌else◌,
}
use connext_triad.Ipc.Bytes.{store}
use connext_triad.Ipc.Frame.{
  Header, sizeof_header, msg_frame_req, msg_frame_rsp, msg_frame_evt, msg_rsp_ack, msg_rsp_error,
  msg_evt_data, packet, parse,
}

pub data Role : Type 0 where
  server client : Role

pub record Peer : Type 0 where
  pub addr : ℕ
  pub port : ℕ

-- Which callbacks are set.
pub record Callbacks : Type 0 where
  pub on_request : Bool
  pub on_response : Bool
  pub on_event : Bool
  pub on_unhandled : Bool

-- A call of a callback.
pub data Called : Type 0 where
  request response event : Header → List ℕ → Called
  unhandled : Header → Called

-- `last_peer_.valid` is whether there is a peer.
pub record DkmRtpIpc : Type 0 where
  pub role : Role
  pub sock : Bool
  pub running : Bool
  pub send_buf : List ℕ
  pub last_peer : Option Peer
  pub cb : Callbacks

abbrev no_callbacks : Callbacks
no_callbacks = record {
  on_request = false;
  on_response = false;
  on_event = false;
  on_unhandled = false;
}

unfoldable pub create : DkmRtpIpc
create = record {
  role = server;
  sock = false;
  running = false;
  send_buf = [];
  last_peer = none;
  cb = no_callbacks;
}

unfoldable pub set_callbacks : Callbacks → DkmRtpIpc → DkmRtpIpc
set_callbacks cb d = record d { cb = cb }

-- How a start ends: with `true`, with `false`, or with the end of the process.
pub data Started : Type 0 where
  started failed terminated : Started

-- `opens` is whether the socket opens. The thread of an endpoint that runs has not been joined, and
-- the assignment of another one to `th_` ends the process.
unfoldable pub start : Role → Bool → DkmRtpIpc → DkmRtpIpc × Started
start role opens d =
    if opens
    then (
      record d { role = role; sock = true; running = true },
      if d.running then terminated else started,
    )
    else (record d { role = role }, failed)

unfoldable pub stop : DkmRtpIpc → DkmRtpIpc
stop d = record d { running = false; sock = false }

-- To whom a datagram goes: the connected server, or a peer.
pub data Target : Type 0 where
  connected : Target
  to : Peer → Target

pub data Sent : Type 0 where
  refused : Sent
  out_of_bounds : Sent
  datagram : Target → List ℕ → Bool → Sent

-- What the network reports for a datagram: the bytes sent, or an error.
abbrev pub Network : Type 0
Network = List ℕ → Option ℕ

abbrev pub is_whole : Option ℕ → ℕ → Bool
is_whole none total_len = false
is_whole (some rc) total_len = rc == total_len

-- The client's branch: `packet` is built, but `send_buf_` is what `send` reads.
unfoldable pub send_client : Network → DkmRtpIpc → ℕ → Sent
send_client net d total_len =
    let sent = take total_len d.send_buf in
    if ltb (length d.send_buf) total_len
    then out_of_bounds
    else datagram connected sent (is_whole (net sent) total_len)

-- The server's branch: `send_buf_` is resized to the message and filled.
unfoldable pub send_server : Network → DkmRtpIpc → List ℕ → DkmRtpIpc × Sent
send_server net d message = elim d.last_peer [
  | none ↦ (d, refused)
  | some peer ↦ (
    record d { send_buf = message },
    datagram (to peer) message (is_whole (net message) (length message)),
  )
]

unfoldable pub send_raw : Network → ℕ → ℕ → ℕ → List ℕ → DkmRtpIpc → DkmRtpIpc × Sent
unfolding send_client send_server
send_raw net now_ns type corr_id payload d =
    if d.sock
    then elim d.role [
      | client ↦ (d, send_client net d (sizeof_header + length payload))
      | server ↦ send_server net d (packet type corr_id payload now_ns)
    ]
    else (d, refused)

unfoldable pub send_frame : Network → ℕ → ℕ → ℕ → List ℕ → DkmRtpIpc → DkmRtpIpc × Sent
unfolding send_raw
send_frame net now_ns frame_type corr_id payload d =
    send_raw net now_ns frame_type corr_id payload d

unfoldable pub send_ack : Network → ℕ → ℕ → DkmRtpIpc → DkmRtpIpc × Sent
unfolding send_raw
send_ack net now_ns corr_id d = send_raw net now_ns msg_rsp_ack corr_id [] d

-- `msg` is its bytes with the closing zero, or empty for a null pointer. The code is copied from
-- the host's memory as it stands.
unfoldable pub send_error : Network → ℕ → ℕ → ℕ → List ℕ → DkmRtpIpc → DkmRtpIpc × Sent
unfolding send_raw
send_error net now_ns corr_id code msg d =
    send_raw net now_ns msg_rsp_error corr_id (store 4 code ++ msg) d

unfoldable pub send_evt_data : Network → ℕ → List ℕ → ℕ → DkmRtpIpc → DkmRtpIpc × Sent
unfolding send_raw
send_evt_data net now_ns payload corr_id d = send_raw net now_ns msg_evt_data corr_id payload d

abbrev call_or_unhandled : Bool → Callbacks → Called → Header → List Called
call_or_unhandled true cb call h = call ∷ []
call_or_unhandled false cb call h = if cb.on_unhandled then unhandled h ∷ [] else []

-- The `switch` of `recv_loop`.
unfoldable pub dispatch : Callbacks → Header → List ℕ → List Called
dispatch cb h payload =
    if h.type == msg_frame_req
    then call_or_unhandled cb.on_request cb (request h payload) h
    else if h.type == msg_frame_rsp
    then call_or_unhandled cb.on_response cb (response h payload) h
    else if h.type == msg_frame_evt
    then call_or_unhandled cb.on_event cb (event h payload) h
    else if cb.on_unhandled
    then unhandled h ∷ []
    else []

abbrev pub buffer_size : ℕ
buffer_size = 65536

-- The server remembers the sender of a datagram that is longer than a header.
unfoldable pub remember : Peer → ℕ → DkmRtpIpc → DkmRtpIpc
remember peer recvd d = elim d.role [
  | client ↦ d
  | server ↦ if leb recvd sizeof_header then d else record d { last_peer = some peer }
]

-- What follows the checks of a datagram.
unfoldable pub handle : Callbacks → Option (Header × List ℕ) → List Called
unfolding dispatch
handle cb parsed = elim parsed [ none ↦ [] | some (h, payload) ↦ dispatch cb h payload ]

-- One round of `recv_loop` in which `select` reports a datagram; the socket cuts it to the buffer.
unfoldable pub receive : Peer → List ℕ → DkmRtpIpc → DkmRtpIpc × List Called
unfolding remember handle
receive peer bytes d =
    let buf = take buffer_size bytes in (remember peer (length buf) d, handle d.cb (parse buf))
