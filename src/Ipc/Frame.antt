-- ===== src/Ipc/Frame.antt =====
-- DkmRtpIpc/include/dkmrtp_ipc_messages.hpp, and the framing in `send_raw` and `recv_loop` of
-- DkmRtpIpc/src/dkmrtp_ipc.cpp.
pub mod RoundTrip
use connext_triad.Prelude.{
  ℕ, ◌+◌, ◌-◌, ◌≤◌, ◌<◌, ◌≡◌, Option, none, some, List, [], ◌∷◌, ◌++◌, length, take, drop, leb,
  ◌==◌, if◌then◌else◌, nat_eq,
}
use connext_triad.Ipc.Bytes.{store, fetch, htons, htonl, htonll}

pub record Header : Type 0 where
  pub magic : ℕ
  pub version : ℕ
  pub type : ℕ
  pub corr_id : ℕ
  pub length : ℕ
  pub ts_ns : ℕ

abbrev pub header_magic : ℕ
header_magic = 0x52495043

abbrev pub header_version : ℕ
header_version = 1

abbrev pub sizeof_header : ℕ
sizeof_header = 24

abbrev pub msg_frame_req : ℕ
msg_frame_req = 0x1000

abbrev pub msg_frame_rsp : ℕ
msg_frame_rsp = 0x1001

abbrev pub msg_frame_evt : ℕ
msg_frame_evt = 0x1002

abbrev pub msg_rsp_ack : ℕ
msg_rsp_ack = 0x0202

abbrev pub msg_rsp_error : ℕ
msg_rsp_error = 0x0203

abbrev pub msg_evt_data : ℕ
msg_evt_data = 0x0201

-- The header that `send_raw` fills in, in network order.
unfoldable pub to_wire : Header → Header
to_wire h = record {
  magic = htonl h.magic;
  version = htons h.version;
  type = htons h.type;
  corr_id = htonl h.corr_id;
  length = htonl h.length;
  ts_ns = htonll h.ts_ns;
}

-- The conversion in `recv_loop`; `ntohl` and the like are the same exchanges.
unfoldable pub of_wire : Header → Header
of_wire wire = record {
  magic = htonl wire.magic;
  version = htons wire.version;
  type = htons wire.type;
  corr_id = htonl wire.corr_id;
  length = htonl wire.length;
  ts_ns = htonll wire.ts_ns;
}

-- `memcpy` of the packed struct.
unfoldable pub to_bytes : Header → List ℕ
to_bytes h =
    store 4 h.magic
    ++ (store 2 h.version
        ++ (store 2 h.type ++ (store 4 h.corr_id ++ (store 4 h.length ++ store 8 h.ts_ns))))

unfoldable pub of_bytes : List ℕ → Header
of_bytes bs = record {
  magic = fetch (take 4 bs);
  version = fetch (take 2 (drop 4 bs));
  type = fetch (take 2 (drop 6 bs));
  corr_id = fetch (take 4 (drop 8 bs));
  length = fetch (take 4 (drop 12 bs));
  ts_ns = fetch (take 8 (drop 16 bs));
}

-- The datagram of a message.
unfoldable pub packet : ℕ → ℕ → List ℕ → ℕ → List ℕ
unfolding to_wire to_bytes
packet type corr_id payload now_ns =
    to_bytes (
      to_wire (record {
        magic = header_magic;
        version = header_version;
        type = type;
        corr_id = corr_id;
        length = length payload;
        ts_ns = now_ns;
      }))
    ++ payload

-- The checks of `recv_loop` on a received datagram of `recvd` bytes, in the order of the code.
unfoldable pub checked : ℕ → Header → List ℕ → Option (Header × List ℕ)
checked recvd h payload =
    if leb recvd sizeof_header
    then none
    else if h.magic == header_magic
    then if h.version == header_version
      then if h.length == recvd - sizeof_header then some (h, payload) else none
      else none
    else none

unfoldable pub parse : List ℕ → Option (Header × List ℕ)
unfolding of_wire of_bytes checked
parse bytes = checked (length bytes) (of_wire (of_bytes bytes)) (drop sizeof_header bytes)
