-- ===== src/Ipc/Tests.antt =====
-- The transport on concrete messages.
use connext_triad.Prelude.{
  ℕ, ◌≡◌, refl, ◌<◌, none, some, List, [], ◌∷◌, ◌++◌, length, true, false, arith, All,
}
use connext_triad.Ipc.Bytes.{AreBytes, htonl, htons, htonll}
use connext_triad.Ipc.Frame.{
  Header, packet, parse, checked, to_wire, to_bytes, of_wire, of_bytes, msg_frame_req,
}
use connext_triad.Ipc.Frame.RoundTrip.{parse-packet, parse_sound, sent_header}
use connext_triad.Ipc.Transport.{
  start, create, set_callbacks, server, client, Peer, Callbacks, request, DkmRtpIpc, Network,
  datagram, to, send_frame, send_ack, dispatch, handle, receive, is_whole,
}
use connext_triad.Ipc.Transport.Client.{frame, arrives, ack, use_all, Overrun, use_all-client}
use connext_triad.Ipc.Transport.Laws.{
  receive-send_frame, receive-request, receive-send_ack, send_frame-receive,
}

abbrev pub ui : Peer
ui = record { addr = 16777343; port = 4000 }

abbrev pub stranger : Peer
stranger = record { addr = 1; port = 9 }

abbrev all_callbacks : Callbacks
all_callbacks = record {
  on_request = true;
  on_response = true;
  on_event = true;
  on_unhandled = false;
}

abbrev pub gateway : DkmRtpIpc
gateway = record {
  role = server;
  sock = true;
  running = true;
  send_buf = [];
  last_peer = some ui;
  cb = all_callbacks;
}

abbrev connected_client : DkmRtpIpc
connected_client = record gateway { role = client; last_peer = none }

abbrev pub perfect : Network
perfect message = some (length message)

abbrev hello : List ℕ
hello = 161 ∷ 98 ∷ 111 ∷ []

parse-packet_example :
    parse (packet msg_frame_req 7 hello 1000) ≡ some (sent_header msg_frame_req 7 hello 1000, hello)
parse-packet_example =
    parse-packet msg_frame_req 7 hello 1000 (omega arith) (omega arith) (omega arith) (omega arith)
      (omega arith)

abbrev hello_bytes : List ℕ
hello_bytes =
    82 ∷ 73 ∷ 80 ∷ 67 ∷ 0 ∷ 1 ∷ 16 ∷ 0 ∷ 0 ∷ 0 ∷ 0 ∷ 7 ∷ 0 ∷ 0 ∷ 0 ∷ 3 ∷ 0 ∷ 0 ∷ 0 ∷ 0 ∷ 0 ∷ 0 ∷ 3
    ∷ 232 ∷ 161 ∷ 98 ∷ 111 ∷ []

abbrev hello_header : Header
hello_header = record {
  magic = 0x52495043;
  version = 1;
  type = msg_frame_req;
  corr_id = 7;
  length = 3;
  ts_ns = 1000;
}

hello_AreBytes : AreBytes hello_bytes
hello_AreBytes = ground arith

parse-hello : parse hello_bytes ≡ some (hello_header, hello)
unfolding parse checked of_wire of_bytes htonl htons htonll
parse-hello = refl

parse_sound_example :
    (hello_bytes ≡ to_bytes (to_wire hello_header) ++ hello)
    × (3 ≡ length hello)
    × (0 < length hello)
parse_sound_example = parse_sound hello_bytes hello_header hello hello_AreBytes parse-hello

receive-send_frame_example :
    (message : List ℕ) × ((send_frame perfect 1000 msg_frame_req 7 hello gateway).1
      ≡ datagram (to ui) message (is_whole (some (length message)) (length message)))
    × ((receive stranger message gateway).1
        ≡ dispatch all_callbacks (sent_header msg_frame_req 7 hello 1000) hello)
receive-send_frame_example =
    receive-send_frame perfect 1000 msg_frame_req 7 hello gateway gateway ui stranger refl refl refl
      (omega arith) (omega arith) (omega arith) (omega arith) (omega arith)

receive-hello : (receive ui hello_bytes gateway).1 ≡ request hello_header hello ∷ []
unfolding receive parse checked of_wire of_bytes dispatch handle htonl htons htonll
receive-hello = refl

receive-request_example :
    (hello_bytes ≡ to_bytes (to_wire hello_header) ++ hello)
    × (msg_frame_req ≡ msg_frame_req)
    × (3 ≡ length hello)
    × (true ≡ true)
receive-request_example =
    receive-request ui hello_bytes gateway hello_header hello hello_AreBytes (omega arith)
      receive-hello

receive-send_ack_example :
    (message : List ℕ) × ((send_ack perfect 1000 7 gateway).1
      ≡ datagram (to ui) message (is_whole (some (length message)) (length message)))
    × ((receive stranger message gateway).1 ≡ [])
receive-send_ack_example =
    receive-send_ack perfect 1000 7 gateway gateway ui stranger refl refl refl

use_all-client_example :
    All Overrun
      (use_all perfect
        (frame 1000 msg_frame_req 7 hello ∷ arrives ui hello_bytes ∷ ack 1001 7 ∷ [])
        (start client true (set_callbacks all_callbacks create)).0).1
use_all-client_example =
    use_all-client perfect all_callbacks
      (frame 1000 msg_frame_req 7 hello ∷ arrives ui hello_bytes ∷ ack 1001 7 ∷ [])

send_frame-receive_example :
    (message : List ℕ) × ((send_frame perfect 1000 msg_frame_req 7 hello
        (receive stranger hello_bytes gateway).0).1
      ≡ datagram (to stranger) message (is_whole (some (length message)) (length message)))
send_frame-receive_example =
    send_frame-receive perfect 1000 msg_frame_req 7 hello hello_bytes stranger gateway refl refl
      (omega arith)
