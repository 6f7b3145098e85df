-- ===== src/Rpc/Tests.antt =====
-- The adapter with the small JSON library and the small manager of the tests of the manager.
use connext_triad.Prelude.{
  ℕ, pos, List, [], ◌∷◌, ◌≡◌, ◌≢◌, refl, String, true, some, string_eq, arith, ==_iff, length,
}
use connext_triad.Async.{CommandEvent}
use connext_triad.Ipc.Frame.{Header}
use connext_triad.Ipc.Transport.{datagram, to, response, receive, is_whole}
use connext_triad.Stats as Stats
use Prim.Native.String.{◌++◌}
use connext_triad.Dds.External.{done}
use connext_triad.Dds.State.{Reason}
use connext_triad.Rpc.Handler.{report, split_qos, split_at_colons}
use connext_triad.Ipc.Tests.{gateway, ui, perfect, stranger}
use connext_triad.Dds.Tests.{
  small_rti, small_entry, fresh, with_participant, with_participant-WellFormed,
}
use connext_triad.Dds.Invariant.{entities, WellFormed}
use connext_triad.Rpc.Json.{result}
use connext_triad.Rpc.SmallJson.{
  small_json-ReadsObjects, Small, nil, txt, num, small_object, small_json,
}
use connext_triad.Rpc.Backend.{Backend}
use connext_triad.Rpc.Process.{IpcAdapter, respond, process_request, process_requests, handle}
use connext_triad.Rpc.Answers.{Answered}
use connext_triad.Rpc.Answers.Handlers.{respond-Answered}
use connext_triad.Rpc.Manager.{Tables, manager}
use connext_triad.Rpc.Manager.Requests.{Responses, process_requests-WellFormed}
use connext_triad.Rpc.Delivery.{process_request-response}
use connext_triad.Rpc.Requests.{endpoint_request, create_writer_request}

abbrev no_wording : Reason → String
no_wording r = "reason"

abbrev small_tables : Tables small_json ℕ
small_tables = record {
  type_registry = λ t. some small_entry;
  json_registry = λ t. some (λ j s w. (true, w));
  write_any = λ h s w. (done, w);
  list_qos_profiles = λ b v w. (result (small_object (("result", nil) ∷ [])), w);
  add_or_update_qos_profile = λ l p x w. (result (l ++ "::" ++ p), w);
}

abbrev pub small_manager : Backend small_json
small_manager = manager no_wording small_json small_rti small_tables

respond-Answered_example :
    Answered small_manager fresh
      (respond small_manager (160 ∷ []) fresh).0
      (respond small_manager (160 ∷ []) fresh).1
respond-Answered_example = respond-Answered small_manager (160 ∷ []) fresh

abbrev pub served : IpcAdapter small_manager
served = record { mgr = with_participant; ipc = gateway; post_cmd = true; stats = Stats.create }

abbrev asked : List ℕ → CommandEvent
asked body = record { corr_id = 7; route = "ipc"; remote = ""; body = body; is_cbor = true }

abbrev three_requests : List (ℕ × CommandEvent)
three_requests = (1000, asked (160 ∷ [])) ∷ (2000, asked []) ∷ (3000, asked (160 ∷ [])) ∷ []

process_requests-WellFormed_example :
    WellFormed (entities (process_requests small_manager perfect three_requests served).0.mgr)
    × Responses no_wording small_json small_rti small_tables perfect ui three_requests served.mgr
        (process_requests small_manager perfect three_requests served).1
process_requests-WellFormed_example =
    process_requests-WellFormed no_wording small_json small_rti small_tables perfect ui
      three_requests served with_participant-WellFormed refl refl refl

process_request-response_example :
    (message : List ℕ) × (h : Header) × ((process_request small_manager perfect 1000
        (asked (160 ∷ []))
        served).1
      ≡ datagram (to ui) message (is_whole (some (length message)) (length message)))
    × (h.corr_id ≡ 7)
    × ((receive stranger message gateway).1 ≡ response h (160 ∷ []) ∷ [])
process_request-response_example =
    process_request-response small_manager perfect 1000 (asked (160 ∷ [])) served gateway ui
      stranger refl refl refl (omega arith) (omega arith) (omega arith) (omega arith) refl

chat_not_empty : ◌≢◌ {A = String} "chat" ""
chat_not_empty = ground (arith, ==_iff {K = String} "chat" "")

abbrev writer_answer : ℕ → Small
writer_answer holder_id = small_object (
    ("action", txt "writer created")
    ∷ ("domain", num (pos 0))
    ∷ ("publisher", txt "pub1")
    ∷ ("topic", txt "chat")
    ∷ ("type", txt "chat")
    ∷ ("id", num (pos holder_id))
    ∷ [])

create_writer_request_example :
    handle small_manager
      (endpoint_request small_json "writer" (pos 0) "publisher" "pub1" "chat" "chat" "Lib::Prof")
      with_participant
    ≡ report small_json
        (small_manager.create_writer
          (pos 0)
          "pub1"
          "chat"
          "chat"
          (split_qos "Lib::Prof").0
          (split_qos "Lib::Prof").1)
        writer_answer
        with_participant
create_writer_request_example =
    create_writer_request small_json-ReadsObjects small_manager (pos 0) "pub1" "chat" "chat"
      "Lib::Prof" with_participant refl chat_not_empty chat_not_empty

split_example : split_qos "Lib::Prof" ≡ ("Lib", "Prof")
unfolding split_qos split_at_colons
split_example = refl
