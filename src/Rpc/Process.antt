-- ===== src/Rpc/Process.antt =====
-- `process_request`, `on_request` and `emit_evt_from_sample` of
-- RtpDdsGateway/src/ipc_adapter.cpp. The time of a frame and the network are arguments, as in the
-- transport.
use connext_triad.Prelude.{
  ◌∷◌, [], String, Bool, true, if◌then◌else◌, ◌&&◌, not, ◌==◌, string_eq, is_empty, ℕ, List, Option,
  none, some,
}
use connext_triad.Async.{CommandEvent, SampleEvent}
use connext_triad.Ipc.Frame.{Header, msg_frame_rsp, msg_frame_evt}
use connext_triad.Ipc.Transport.{DkmRtpIpc, Network, Sent, send_frame}
use connext_triad.Stats.{StatsManager, inc_ipc_in, inc_ipc_out}
use connext_triad.Rpc.Json.{JsonLib, Result, result, thrown}
use connext_triad.Rpc.Backend.{Backend}
use connext_triad.Rpc.Handler.{H, ◌>>=◌, pure, lift, Answer, no_answer, error_fields, Fields}
use connext_triad.Rpc.Create.{
  create_participant, create_publisher, create_subscriber, create_writer, create_reader,
}
use connext_triad.Rpc.Hello.{do_hello}
use connext_triad.Rpc.Handlers.{do_clear, do_write, do_get, do_set_qos}

module _ {lib : JsonLib} (backend : Backend lib) where
  open lib use {Json, object, text, value_text, value_json, from_cbor}
  open backend use {State}

  unfoldable pub create_kind : Json → Json → String → H State (Answer lib)
  create_kind req target kind =
      if kind == "participant"
      then create_participant backend req
      else if kind == "publisher"
      then create_publisher backend req
      else if kind == "subscriber"
      then create_subscriber backend req
      else if kind == "writer"
      then create_writer backend req target
      else if kind == "reader"
      then create_reader backend req target
      else pure (no_answer lib)

  unfoldable pub dispatch : Json → Json → String → String → H State (Answer lib)
  dispatch req target op kind =
      if (op == "clear") && (kind == "dds_entities")
      then do_clear backend
      else if op == "create"
      then create_kind req target kind
      else if op == "write"
      then do_write backend req target kind
      else if op == "hello"
      then do_hello lib
      else if op == "get"
      then do_get backend req kind
      else if (op == "set") && (kind == "qos")
      then do_set_qos backend req
      else pure (no_answer lib)

  -- The first part of the `try` block: what the dispatch reads, and the dispatch.
  unfoldable pub handle : Json → H State (Answer lib)
  handle req = do
    op ← lift (value_text "op" "" req)
    target ← lift (value_json "target" (object []) req)
    kind ← lift (value_text "kind" "" target)
    dispatch req target op kind

  -- `if (!ok && rsp.empty())`
  unfoldable pub settle : Answer lib → Fields lib
  settle a =
      if not a.ok && is_empty a.rsp
      then error_fields lib 4 (("msg", text "unsupported or failed") ∷ [])
      else a.rsp

  unfoldable pub internal_error : String → Fields lib
  internal_error what = error_fields lib 7 (
      ("msg", text "internal error")
      ∷ ("err_kind", text "internal")
      ∷ ("fail_detail", text what)
      ∷ ("source", text "agent")
      ∷ [])

  unfoldable pub parse_error : String → Fields lib
  parse_error what = error_fields lib 7 (
      ("msg", text "parse failed")
      ∷ ("err_kind", text "parse")
      ∷ ("fail_detail", text what)
      ∷ ("source", text "agent")
      ∷ [])

  -- `rsp` after the `try` block and its handler.
  unfoldable pub conclude : Result (Answer lib) → Fields lib
  unfolding settle internal_error
  conclude (result a) = settle a
  conclude (thrown what) = internal_error what

  -- `rsp` for the bytes of a request.
  unfoldable pub respond : List ℕ → State → Fields lib × State
  respond body s = elim (from_cbor body) [
    | thrown what ↦ (parse_error what, s)
    | result req ↦ let (r, s') = handle req s in (conclude r, s')
  ]

  -- The adapter with the objects that it uses: the manager and the statistics.
  pub record IpcAdapter : Type 0 where
    pub mgr : State
    pub ipc : DkmRtpIpc
    pub post_cmd : Bool
    pub stats : StatsManager

  -- `to_cbor`, `send_frame` and `inc_ipc_out`.
  unfoldable pub send_json : Network → ℕ → ℕ → ℕ → Json → IpcAdapter → IpcAdapter × Sent
  send_json net now_ns type corr_id j a =
      let (ipc, sent) = send_frame net now_ns type corr_id (lib.to_cbor j) a.ipc in
      (record a { ipc = ipc; stats = inc_ipc_out a.stats }, sent)

  unfoldable pub process_request : Network → ℕ → CommandEvent → IpcAdapter → IpcAdapter × Sent
  process_request net now_ns ev a =
      let (rsp, mgr) = respond ev.body a.mgr in
      send_json net now_ns msg_frame_rsp ev.corr_id (object rsp) (record a { mgr = mgr })

  -- What becomes of a received request.
  pub data Taken : Type 0 where
    posted : CommandEvent → Taken
    answered : Sent → Taken

  unfoldable pub command_event : Header → List ℕ → CommandEvent
  command_event h body = record {
    corr_id = h.corr_id;
    route = "ipc";
    remote = "";
    body = body;
    is_cbor = true;
  }

  unfoldable pub no_sink : Fields lib
  no_sink = error_fields lib 7 (("msg", text "no command sink") ∷ [])

  unfoldable pub refuse_request : Network → ℕ → Header → IpcAdapter → IpcAdapter × Taken
  refuse_request net now_ns h a =
      let (a', sent) = send_json net now_ns msg_frame_rsp h.corr_id (object no_sink) a in
      (a', answered sent)

  unfoldable pub on_request : Network → ℕ → Header → List ℕ → IpcAdapter → IpcAdapter × Taken
  on_request net now_ns h body a =
      let counted = record a { stats = inc_ipc_in a.stats } in
      if a.post_cmd
      then (counted, posted (command_event h body))
      else refuse_request net now_ns h counted

  -- The table that the build generates: for each type the conversion of a sample to JSON.
  abbrev pub ToJson : Type 0
  ToJson = String → Option (ℕ → Option Json)

  unfoldable pub dds_to_json : ToJson → String → ℕ → Option Json
  dds_to_json json_registry type_name p = elim (json_registry type_name) [
    | none ↦ none
    | some to_json ↦ to_json p
  ]

  -- `data_json`: null where the sample is no pointer, is null or cannot be converted. `pointer` is
  -- what `any_cast` finds in the sample.
  unfoldable pub sample_json : (ℕ → Option ℕ) → ToJson → SampleEvent → Json
  unfolding dds_to_json
  sample_json pointer json_registry ev = elim (pointer ev.sample) [
    | none ↦ lib.null
    | some p ↦ elim (dds_to_json json_registry ev.type_name p) [ none ↦ lib.null | some j ↦ j ]
  ]

  abbrev evt_of : SampleEvent → Json → Json
  evt_of ev data_json = object (
      ("evt", text "data")
      ∷ ("topic", text ev.topic)
      ∷ ("type", text ev.type_name)
      ∷ ("data", data_json)
      ∷ [])

  -- A converted sample is dumped for the log.
  unfoldable pub data_preview : (ℕ → Option ℕ) → ToJson → SampleEvent → Result String
  unfolding dds_to_json
  data_preview pointer json_registry ev = elim (pointer ev.sample) [
    | none ↦ result ""
    | some p ↦ elim (dds_to_json json_registry ev.type_name p) [
      | none ↦ result ""
      | some j ↦ lib.dump j
    ]
  ]

  -- The exception of a dump for the log leaves the function before anything is sent.
  unfoldable pub emit_evt_from_sample :
      (ℕ → Option ℕ) → ToJson → Network → ℕ → SampleEvent → IpcAdapter → IpcAdapter × Result Sent
  unfolding data_preview sample_json send_json
  emit_evt_from_sample pointer json_registry net now_ns ev a =
      let evt = evt_of ev (sample_json pointer json_registry ev) in
      elim (data_preview pointer json_registry ev) [
        | thrown what ↦ (a, thrown what)
        | result preview ↦ elim (lib.dump evt) [
          | thrown what ↦ (a, thrown what)
          | result evt_preview ↦
              let (a', sent) = send_json net now_ns msg_frame_evt 0 evt a in (a', result sent)
        ]
      ]

  -- The worker thread processes requests one after another.
  unfoldable pub process_requests :
      Network → List (ℕ × CommandEvent) → IpcAdapter → IpcAdapter × List Sent
  process_requests net [] a = (a, [])
  process_requests net ((now_ns, ev) ∷ evs) a =
      let (a', sent) = process_request net now_ns ev a in
      let (last, others) = process_requests net evs a' in (last, sent ∷ others)
