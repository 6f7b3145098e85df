-- ===== src/Rpc/Handlers.antt =====
-- `do_clear`, `do_write`, `do_get` and `do_set_qos` of `process_request` in
-- RtpDdsGateway/src/ipc_adapter.cpp.
use connext_triad.Prelude.{
  ◌∷◌, [], String, Bool, true, false, if◌then◌else◌, ◌||◌, not, ◌==◌, string_eq,
}
use connext_triad.Rpc.Json.{JsonLib, Result, result, thrown}
use connext_triad.Rpc.Backend.{Backend}
use connext_triad.Rpc.Handler.{
  H, ◌>>=◌, pure, lift, catch_with, Answer, no_answer, answer_ok, action, message, report, Fields,
}

module _ {lib : JsonLib} (backend : Backend lib) where
  open lib use {
    dump, Json, object, array, text, boolean, is_object, contains, item, value_text, value_bool,
    value_json,
  }
  open backend use {State}

  unfoldable pub do_clear : H State (Answer lib)
  do_clear s =
      (result (answer_ok lib (action lib "dds entities cleared" [])), backend.clear_entities s)

  -- `req.contains(name) && req[name].is_object()`
  unfoldable pub has_object : String → Json → Result Bool
  has_object name req =
      if contains name req
      then elim (item name req) [ result j ↦ result (is_object j) | thrown what ↦ thrown what ]
      else result false

  unfoldable pub write_topic : Json → String → H State (Answer lib)
  write_topic req topic = do
    valid ← lift (has_object "data" req)
    elim valid [
      | false ↦ pure (message lib 6 "Missing or invalid data object")
      | true ↦ do
        data_json ← lift (item "data" req)
        data_preview ← lift (dump data_json)
        report lib (backend.publish_json topic data_json)
            (λ _. action lib "publish ok" (("topic", text topic) ∷ []))
    ]

  unfoldable pub do_write : Json → Json → String → H State (Answer lib)
  do_write req target kind = if not (kind == "writer") then pure (no_answer lib) else do
    topic ← lift (value_text "topic" "" target)
    if topic == "" then pure (message lib 6 "Missing topic tag") else write_topic req topic

  -- The two flags, `false` where `args` is no object.
  unfoldable pub get_flags : Json → H State (Bool × Bool)
  get_flags req = do
    present ← lift (has_object "args" req)
    elim present [
      | false ↦ pure (false, false)
      | true ↦ do
        args ← lift (item "args" req)
        include_builtin ← lift (value_bool "include_builtin" false args)
        include_detail ← lift (value_bool "detail" false args)
        pure (include_builtin, include_detail)
    ]

  -- `rsp["detail"]`, where it is asked for.
  unfoldable pub detail_field : Bool → Json → H State (Fields lib)
  detail_field false json_out = pure []
  detail_field true json_out = do
    detail ← lift (value_json "detail" (array []) json_out)
    pure (("detail", detail) ∷ [])

  unfoldable pub list_profiles : Json → H State (Answer lib)
  list_profiles req = do
    flags ← get_flags req
    json_out ← backend.list_qos_profiles flags.0 flags.1
    found ← lift (value_json "result" (array []) json_out)
    detail ← detail_field flags.1 json_out
    pure (record { ok = true; rsp = ("ok", boolean true) ∷ ("result", found) ∷ detail })

  unfoldable pub do_get : Json → String → H State (Answer lib)
  do_get req kind =
      if not (kind == "qos")
      then pure (no_answer lib)
      else catch_with (λ _. message lib 4 "failed to build qos list") (list_profiles req)

  -- The answer to `add_or_update_qos_profile`, which gives an empty name where it fails.
  abbrev profile_answer : String → Answer lib
  profile_answer full_name =
      if full_name == ""
      then message lib 4 "Failed to add/update QoS profile"
      else answer_ok lib (action lib "qos profile updated" (("profile", text full_name) ∷ []))

  unfoldable pub store_profile : String → String → String → H State (Answer lib)
  store_profile library profile xml =
      if (library == "") || (profile == "") || (xml == "")
      then pure (message lib 6 "Missing required fields: library, profile, xml")
      else backend.add_or_update_qos_profile library profile xml >>= λ full_name.
          pure (profile_answer full_name)

  unfoldable pub do_set_qos : Json → H State (Answer lib)
  do_set_qos req = do
    valid ← lift (has_object "data" req)
    elim valid [
      | false ↦ pure (message lib 6 "Missing or invalid data object for set.qos")
      | true ↦ do
        fields ← lift (item "data" req)
        library ← lift (value_text "library" "" fields)
        profile ← lift (value_text "profile" "" fields)
        xml ← lift (value_text "xml" "" fields)
        store_profile library profile xml
    ]
