-- ===== src/Rpc/Answers/Handlers.antt =====
-- Each handler of a request, and the answer to the bytes of a request.
use connext_triad.Prelude.{
  ◌∷◌, [], ℕ, List, String, Bool, true, false, refl, ◌||◌, ◌&&◌, not, ◌==◌, string_eq, inl, inr,
  if◌then◌else◌,
}
use connext_triad.Rpc.Json.{JsonLib, Result, result, thrown}
use connext_triad.Rpc.Backend.{
  Backend, perform, participant, publisher, subscriber, writer, reader, publish, clear,
  list_profiles as list_profiles_call, set_profile,
}
use connext_triad.Rpc.Handler.{H, Answer, Fields, answer_ok, action, message, split_qos}
use connext_triad.Rpc.Create.{
  domain_of, arg_of, with_tags, default_qos, create_participant, create_publisher,
  create_subscriber, create_writer, create_reader,
}
use connext_triad.Rpc.Hello.{do_hello}
use connext_triad.Rpc.Handlers.{
  do_clear, write_topic, do_write, get_flags, detail_field, list_profiles, do_get, store_profile,
  do_set_qos,
}
use connext_triad.Rpc.Process.{
  create_kind, dispatch, handle, conclude, settle, parse_error, respond,
}
use connext_triad.Rpc.Answers.{
  Answered, told, granted, crashed, Sound, Reads, lift-Reads, bind-Reads, bind-Sound, report-Sound,
  message-Sound, if-Sound, no_answer-Sound, call-Sound, catch_with-Sound, LateFields, bind-Late,
}

module _ {lib : JsonLib} (backend : Backend lib) where
  open lib use {Json, item, value_text, value_int}
  open backend use {State}

  domain_of-Reads : (req : Json) → Reads backend (domain_of backend req)
  domain_of-Reads req = bind-Reads backend (lift-Reads backend _) (λ args. lift-Reads backend _)

  arg_of-Reads :
      (name default : String) (req : Json) → Reads backend (arg_of backend name default req)
  arg_of-Reads name default req =
      bind-Reads backend (lift-Reads backend _) (λ args. lift-Reads backend _)

  create_participant-Sound : (req : Json) → Sound backend (create_participant backend req)
  unfolding create_participant perform
  create_participant-Sound req = bind-Sound backend (domain_of-Reads req) (λ d.
      bind-Sound backend (arg_of-Reads "qos" default_qos req) (λ qos.
        report-Sound backend _ _ (participant d (split_qos qos).0 (split_qos qos).1) (λ s. refl)))

  create_publisher-Sound : (req : Json) → Sound backend (create_publisher backend req)
  unfolding create_publisher perform
  create_publisher-Sound req = bind-Sound backend (domain_of-Reads req) (λ d.
      bind-Sound backend (arg_of-Reads "publisher" "pub1" req) (λ n.
        bind-Sound backend (arg_of-Reads "qos" default_qos req) (λ qos.
          report-Sound backend _ _ (publisher d n (split_qos qos).0 (split_qos qos).1)
            (λ s. refl))))

  create_subscriber-Sound : (req : Json) → Sound backend (create_subscriber backend req)
  unfolding create_subscriber perform
  create_subscriber-Sound req = bind-Sound backend (domain_of-Reads req) (λ d.
      bind-Sound backend (arg_of-Reads "subscriber" "sub1" req) (λ n.
        bind-Sound backend (arg_of-Reads "qos" default_qos req) (λ qos.
          report-Sound backend _ _ (subscriber d n (split_qos qos).0 (split_qos qos).1)
            (λ s. refl))))

  with_tags-Sound :
      (topic type_name : String) {make : H State (Answer lib)}
      → Sound backend make
      → Sound backend (with_tags backend topic type_name make)
  unfolding with_tags
  with_tags-Sound topic type_name t =
      if-Sound backend ((topic == "") || (type_name == "")) (message-Sound backend _) t

  create_writer-Sound : (req target : Json) → Sound backend (create_writer backend req target)
  unfolding create_writer perform
  create_writer-Sound req target = bind-Sound backend (domain_of-Reads req) (λ d.
      bind-Sound backend (arg_of-Reads "publisher" "pub1" req) (λ n.
        bind-Sound backend (lift-Reads backend _) (λ topic.
          bind-Sound backend (lift-Reads backend _) (λ type_name.
            bind-Sound backend (arg_of-Reads "qos" default_qos req) (λ qos.
              with_tags-Sound topic type_name (
                report-Sound backend _ _
                  (writer d n topic type_name (split_qos qos).0 (split_qos qos).1) (λ s. refl)))))))

  create_reader-Sound : (req target : Json) → Sound backend (create_reader backend req target)
  unfolding create_reader perform
  create_reader-Sound req target = bind-Sound backend (domain_of-Reads req) (λ d.
      bind-Sound backend (arg_of-Reads "subscriber" "sub1" req) (λ n.
        bind-Sound backend (lift-Reads backend _) (λ topic.
          bind-Sound backend (lift-Reads backend _) (λ type_name.
            bind-Sound backend (arg_of-Reads "qos" default_qos req) (λ qos.
              with_tags-Sound topic type_name (
                report-Sound backend _ _
                  (reader d n topic type_name (split_qos qos).0 (split_qos qos).1) (λ s. refl)))))))

  do_clear-Sound : Sound backend (do_clear backend)
  unfolding do_clear conclude settle perform
  do_clear-Sound = record { run = λ s. granted clear (_, _, refl) refl }

  do_hello-Sound : Sound backend (do_hello lib)
  unfolding do_hello conclude settle
  do_hello-Sound = record { run = λ s. told (_, _, refl) refl }

  write_topic-Sound : (req : Json) (topic : String) → Sound backend (write_topic backend req topic)
  unfolding write_topic perform
  write_topic-Sound req topic = bind-Sound backend (lift-Reads backend _) (elim [
    | false ↦ message-Sound backend _
    | true ↦ bind-Sound backend (lift-Reads backend _) (λ j.
        bind-Sound backend (lift-Reads backend _)
          (λ preview. report-Sound backend _ _ (publish topic j) (λ s. refl)))
  ])

  do_write-Sound :
      (req target : Json) (kind : String) → Sound backend (do_write backend req target kind)
  unfolding do_write
  do_write-Sound req target kind =
      if-Sound backend (not (kind == "writer")) (no_answer-Sound backend) (
        bind-Sound backend (lift-Reads backend _) (λ topic.
          if-Sound backend (topic == "") (message-Sound backend _) (write_topic-Sound req topic)))

  get_flags-Reads : (req : Json) → Reads backend (get_flags backend req)
  unfolding get_flags
  get_flags-Reads req = bind-Reads backend (lift-Reads backend _) (elim [
    | false ↦ lift-Reads backend (result (false, false))
    | true ↦ bind-Reads backend (lift-Reads backend _) (λ args.
        bind-Reads backend (lift-Reads backend _) (λ b.
          bind-Reads backend (lift-Reads backend _) (λ v. lift-Reads backend (result (b, v)))))
  ])

  detail_field-Reads : (v : Bool) (j : Json) → Reads backend (detail_field backend v j)
  unfolding detail_field
  detail_field-Reads false j = lift-Reads backend (result [])
  detail_field-Reads true j =
      bind-Reads backend (lift-Reads backend _) (λ found. lift-Reads backend (result _))

  list_profiles-Sound : (req : Json) → Sound backend (list_profiles backend req)
  unfolding list_profiles perform conclude settle
  list_profiles-Sound req = bind-Sound backend (get_flags-Reads req) (λ flags.
      call-Sound backend (backend.list_qos_profiles flags.0 flags.1)
        (list_profiles_call flags.0 flags.1) (λ s. refl)
        (λ j. bind-Late backend (lift-Reads backend _) (λ found.
          bind-Late backend (detail_field-Reads flags.1 j)
            (λ detail. record { finishes = λ s. (refl, inl (_, _, refl)) }))))

  do_get-Sound : (req : Json) (kind : String) → Sound backend (do_get backend req kind)
  unfolding do_get
  do_get-Sound req kind =
      if-Sound backend (not (kind == "qos")) (no_answer-Sound backend)
        (catch_with-Sound backend "failed to build qos list" (list_profiles-Sound req))

  store_profile-Sound :
      (library profile xml : String) → Sound backend (store_profile backend library profile xml)
  unfolding store_profile perform conclude settle
  store_profile-Sound library profile xml =
      if-Sound backend ((library == "") || (profile == "") || (xml == "")) (message-Sound backend _)
        (call-Sound backend (backend.add_or_update_qos_profile library profile xml)
          (set_profile library profile xml) (λ s. refl)
          (λ full_name. record { finishes = λ s. (refl, by_name full_name (full_name == "")) }))
    where
      by_name :
          (full_name : String) (empty : Bool)
          → LateFields backend (
              conclude backend (
                result (
                  if empty
                  then message lib 4 "Failed to add/update QoS profile"
                  else answer_ok lib
                      (action lib "qos profile updated" (("profile", lib.text full_name) ∷ [])))))
      by_name full_name true = inr (inl (_, refl))
      by_name full_name false = inl (_, _, refl)

  do_set_qos-Sound : (req : Json) → Sound backend (do_set_qos backend req)
  unfolding do_set_qos
  do_set_qos-Sound req = bind-Sound backend (lift-Reads backend _) (elim [
    | false ↦ message-Sound backend _
    | true ↦ bind-Sound backend (lift-Reads backend _) (λ fields.
        bind-Sound backend (lift-Reads backend _) (λ library.
          bind-Sound backend (lift-Reads backend _) (λ profile.
            bind-Sound backend (lift-Reads backend _)
              (λ xml. store_profile-Sound library profile xml))))
  ])

  create_kind-Sound :
      (req target : Json) (kind : String) → Sound backend (create_kind backend req target kind)
  unfolding create_kind
  create_kind-Sound req target kind =
      if-Sound backend (kind == "participant") (create_participant-Sound req) (
        if-Sound backend (kind == "publisher") (create_publisher-Sound req) (
          if-Sound backend (kind == "subscriber") (create_subscriber-Sound req) (
            if-Sound backend (kind == "writer") (create_writer-Sound req target) (
              if-Sound backend (kind == "reader") (create_reader-Sound req target)
                (no_answer-Sound backend)))))

  dispatch-Sound :
      (req target : Json) (op kind : String) → Sound backend (dispatch backend req target op kind)
  unfolding dispatch
  dispatch-Sound req target op kind =
      if-Sound backend ((op == "clear") && (kind == "dds_entities")) do_clear-Sound (
        if-Sound backend (op == "create") (create_kind-Sound req target kind) (
          if-Sound backend (op == "write") (do_write-Sound req target kind) (
            if-Sound backend (op == "hello") do_hello-Sound (
              if-Sound backend (op == "get") (do_get-Sound req kind) (
                if-Sound backend ((op == "set") && (kind == "qos")) (do_set_qos-Sound req)
                  (no_answer-Sound backend))))))

  handle-Sound : (req : Json) → Sound backend (handle backend req)
  unfolding handle
  handle-Sound req = bind-Sound backend (lift-Reads backend _) (λ op.
      bind-Sound backend (lift-Reads backend _) (λ target.
        bind-Sound backend (lift-Reads backend _) (λ kind. dispatch-Sound req target op kind)))

  -- Whatever the bytes of a request are and whatever the JSON library and the manager do, there is
  -- an answer, and it is one of these: a success, or an error with code 4, after at most one call
  -- of the manager, whose effect is the whole change of the manager's state; an error with code 6,
  -- and the manager is as it was; an error with code 7 after at most one call of the manager.
  pub respond-Answered :
      (body : List ℕ) (s : State)
      → Answered backend s (respond backend body s).0 (respond backend body s).1
  unfolding respond parse_error
  respond-Answered body s = by_parse (lib.from_cbor body)
    where
      by_parse :
          (r : Result Json)
          → let out = elim r as (λ _. Fields lib × State) [
            | thrown what ↦ (parse_error backend what, s)
            | result req ↦ let (a, s') = handle backend req s in (conclude backend a, s')
          ] in
            Answered backend s out.0 out.1
      by_parse (thrown what) = crashed (_, refl) (inl refl)
      by_parse (result req) = (handle-Sound req).run s
