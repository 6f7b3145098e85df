-- ===== src/Ipc/Transport/Client.antt =====
-- What a client of the transport sends from its start on.
use connext_triad.Prelude.{ℕ, List, [], ◌∷◌, ◌++◌, All, true, ◌≡◌, refl, arith, subst, sym}
use connext_triad.Ipc.Transport.{
  Peer, Callbacks, DkmRtpIpc, create, set_callbacks, start, client, Sent, out_of_bounds, Network,
  send_client, send_raw, send_frame, send_ack, send_error, send_evt_data, remember, receive,
}

-- What the owner and the network do with an endpoint.
pub data Use : Type 0 where
  frame : ℕ → ℕ → ℕ → List ℕ → Use
  ack : ℕ → ℕ → Use
  failure : ℕ → ℕ → ℕ → List ℕ → Use
  evt_data : ℕ → List ℕ → ℕ → Use
  arrives : Peer → List ℕ → Use
  callbacks : Callbacks → Use

abbrev sending : List Sent → DkmRtpIpc × Sent → DkmRtpIpc × List Sent
sending others (d, sent) = (d, sent ∷ others)

-- The endpoint after a use, and what it sent.
unfoldable pub use_endpoint : Network → Use → DkmRtpIpc → DkmRtpIpc × List Sent
unfolding send_frame send_ack send_error send_evt_data receive set_callbacks
use_endpoint net (frame now_ns type corr_id payload) d =
    sending [] (send_frame net now_ns type corr_id payload d)
use_endpoint net (ack now_ns corr_id) d = sending [] (send_ack net now_ns corr_id d)
use_endpoint net (failure now_ns corr_id code msg) d =
    sending [] (send_error net now_ns corr_id code msg d)
use_endpoint net (evt_data now_ns payload corr_id) d =
    sending [] (send_evt_data net now_ns payload corr_id d)
use_endpoint net (arrives peer bytes) d = ((receive peer bytes d).0, [])
use_endpoint net (callbacks cb) d = (set_callbacks cb d, [])

unfoldable pub use_all : Network → List Use → DkmRtpIpc → DkmRtpIpc × List Sent
unfolding use_endpoint
use_all net [] d = (d, [])
use_all net (u ∷ us) d =
    let (d', sent) = use_endpoint net u d in
    let (last, others) = use_all net us d' in (last, sent ++ others)

-- A client whose buffer has never been filled.
record IsUnfilled (d : DkmRtpIpc) : Type 0 where
  open_socket : d.sock ≡ true
  as_client : d.role ≡ client
  empty : d.send_buf ≡ []

abbrev pub Overrun : Sent → Type 0
Overrun sent = sent ≡ out_of_bounds

send_raw-IsUnfilled :
    (net : Network) (now_ns type corr_id : ℕ) (payload : List ℕ) (d : DkmRtpIpc)
    → IsUnfilled d
    → ((send_raw net now_ns type corr_id payload d).1 ≡ out_of_bounds)
      × ((send_raw net now_ns type corr_id payload d).0 ≡ d)
unfolding send_raw send_client
send_raw-IsUnfilled net now_ns type corr_id payload d u =
    ground (arith, u.open_socket, u.as_client, u.empty)

receive-IsUnfilled :
    (peer : Peer) (bytes : List ℕ) (d : DkmRtpIpc)
    → IsUnfilled d
    → IsUnfilled (receive peer bytes d).0
unfolding receive remember
receive-IsUnfilled peer bytes d u = record {
  open_socket = ground (arith, u.as_client, u.open_socket);
  as_client = ground (arith, u.as_client);
  empty = ground (arith, u.as_client, u.empty);
}

sending-Overrun :
    (d : DkmRtpIpc) (r : DkmRtpIpc × Sent)
    → IsUnfilled d
    → (r.1 ≡ out_of_bounds) × (r.0 ≡ d)
    → IsUnfilled (sending [] r).0 × All Overrun (sending [] r).1
sending-Overrun d r u (o, e) = (subst IsUnfilled (sym e) u, (o, tt))

use_endpoint-Overrun :
    (net : Network) (u : Use) (d : DkmRtpIpc)
    → IsUnfilled d
    → IsUnfilled (use_endpoint net u d).0 × All Overrun (use_endpoint net u d).1
unfolding use_endpoint send_frame send_ack send_error send_evt_data
use_endpoint-Overrun net (frame now_ns type corr_id payload) d u =
    sending-Overrun d _ u (send_raw-IsUnfilled net now_ns type corr_id payload d u)
use_endpoint-Overrun net (ack now_ns corr_id) d u =
    sending-Overrun d _ u (send_raw-IsUnfilled net now_ns _ corr_id _ d u)
use_endpoint-Overrun net (failure now_ns corr_id code msg) d u =
    sending-Overrun d _ u (send_raw-IsUnfilled net now_ns _ corr_id _ d u)
use_endpoint-Overrun net (evt_data now_ns payload corr_id) d u =
    sending-Overrun d _ u (send_raw-IsUnfilled net now_ns _ corr_id payload d u)
use_endpoint-Overrun net (arrives peer bytes) d u = (receive-IsUnfilled peer bytes d u, tt)
use_endpoint-Overrun net (callbacks cb) d u =
    (record { open_socket = u.open_socket; as_client = u.as_client; empty = u.empty }, tt)

All-append : (xs ys : List Sent) → All Overrun xs → All Overrun ys → All Overrun (xs ++ ys)
All-append [] ys p q = q
All-append (x ∷ xs) ys (h, p) q = (h, All-append xs ys p q)

use_all-Overrun :
    (net : Network) (us : List Use) (d : DkmRtpIpc)
    → IsUnfilled d
    → All Overrun (use_all net us d).1
unfolding use_all
use_all-Overrun net [] d u = tt
use_all-Overrun net (x ∷ us) d u =
    let (u', o) = use_endpoint-Overrun net x d u in
    All-append (use_endpoint net x d).1 (use_all net us (use_endpoint net x d).0).1 o
      (use_all-Overrun net us (use_endpoint net x d).0 u')

-- Whatever a new endpoint that is started as a client and whose socket opens then sends (frames,
-- acknowledgements, errors, data) and receives, and whatever callbacks are set: each of its sends
-- reads beyond the send buffer, which a client never fills.
pub use_all-client :
    (net : Network) (cb : Callbacks) (us : List Use)
    → All Overrun (use_all net us (start client true (set_callbacks cb create)).0).1
unfolding start set_callbacks create
use_all-client net cb us =
    use_all-Overrun net us (start client true (set_callbacks cb create)).0
      (record { open_socket = refl; as_client = refl; empty = refl })
