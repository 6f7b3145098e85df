-- ===== src/Gateway/Tests.antt =====
-- A request to a gateway whose manager is the small one of the tests.
use connext_triad.Prelude.{◌≡◌, refl, true, [], ◌∷◌, arith}
use connext_triad.Ipc.Frame.{packet, msg_frame_req}
use connext_triad.Ipc.Tests.{ui, perfect}
use connext_triad.Rpc.Process.{posted}
use connext_triad.Rpc.Tests.{small_manager, served}
use connext_triad.Gateway.{receive_frame}
use connext_triad.Gateway.Request.{receive_frame-posted}

receive_frame-posted_example :
    (receive_frame small_manager perfect 1000 ui (packet msg_frame_req 7 (160 ∷ []) 900) served).1
    ≡ posted (record { corr_id = 7; route = "ipc"; remote = ""; body = 160 ∷ []; is_cbor = true })
      ∷ []
receive_frame-posted_example =
    receive_frame-posted small_manager perfect 1000 900 7 (160 ∷ []) ui served refl refl
      (omega arith) (omega arith) (omega arith) (omega arith)
