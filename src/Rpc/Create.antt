-- ===== src/Rpc/Create.antt =====
-- The five `create_…` lambdas of `process_request` in RtpDdsGateway/src/ipc_adapter.cpp.
use connext_triad.Prelude.{ℤ, ◌∷◌, [], pos, String, if◌then◌else◌, ◌||◌, ◌==◌, string_eq}
use connext_triad.Rpc.Json.{JsonLib, Result, result}
use connext_triad.Rpc.Backend.{Backend}
use connext_triad.Rpc.Handler.{H, ◌>>=◌, pure, lift, split_qos, Answer, action, message, report}

abbrev pub default_qos : String
default_qos = "TriadQosLib::DefaultReliable"

module _ {lib : JsonLib} (backend : Backend lib) where
  open lib use {Json, object, text, number, boolean, contains, item, value_text, value_int}
  open backend use {State}

  -- `req["args"].value("domain", 0)`
  abbrev pub domain_of : Json → H State ℤ
  domain_of req = lift (item "args" req) >>= λ args. lift (value_int "domain" (pos 0) args)

  abbrev pub arg_of : String → String → Json → H State String
  arg_of name default req = lift (item "args" req) >>= λ args. lift (value_text name default args)

  -- `target.contains(name) ? target.value(name, "") : ""`
  unfoldable pub tag_of : String → Json → Result String
  tag_of name target = if contains name target then value_text name "" target else result ""

  unfoldable pub create_participant : Json → H State (Answer lib)
  create_participant req = do
    domain ← domain_of req
    qos ← arg_of "qos" default_qos req
    let (l, p) = split_qos qos
    report lib (backend.create_participant domain l p)
        (λ _. action lib "participant created" (("domain", number domain) ∷ []))

  unfoldable pub create_publisher : Json → H State (Answer lib)
  create_publisher req = do
    domain ← domain_of req
    publisher ← arg_of "publisher" "pub1" req
    qos ← arg_of "qos" default_qos req
    let (l, p) = split_qos qos
    report lib (backend.create_publisher domain publisher l p) (λ _.
        action lib "publisher created"
          (("domain", number domain) ∷ ("publisher", text publisher) ∷ []))

  unfoldable pub create_subscriber : Json → H State (Answer lib)
  create_subscriber req = do
    domain ← domain_of req
    subscriber ← arg_of "subscriber" "sub1" req
    qos ← arg_of "qos" default_qos req
    let (l, p) = split_qos qos
    report lib (backend.create_subscriber domain subscriber l p) (λ _.
        action lib "subscriber created"
          (("domain", number domain) ∷ ("subscriber", text subscriber) ∷ []))

  -- `return`s with the error where `topic.empty() || type.empty()`.
  unfoldable pub with_tags : String → String → H State (Answer lib) → H State (Answer lib)
  with_tags topic type_name make =
      if (topic == "") || (type_name == "")
      then pure (message lib 6 "Missing topic or type tag")
      else make

  unfoldable pub create_writer : Json → Json → H State (Answer lib)
  create_writer req target = do
    domain ← domain_of req
    publisher ← arg_of "publisher" "pub1" req
    topic ← lift (tag_of "topic" target)
    type_name ← lift (tag_of "type" target)
    qos ← arg_of "qos" default_qos req
    let (l, p) = split_qos qos
    with_tags topic type_name (
        report lib (backend.create_writer domain publisher topic type_name l p) (λ holder_id.
          action lib "writer created" (
            ("domain", number domain)
            ∷ ("publisher", text publisher)
            ∷ ("topic", text topic)
            ∷ ("type", text type_name)
            ∷ ("id", number (pos holder_id))
            ∷ [])))

  unfoldable pub create_reader : Json → Json → H State (Answer lib)
  create_reader req target = do
    domain ← domain_of req
    subscriber ← arg_of "subscriber" "sub1" req
    topic ← lift (tag_of "topic" target)
    type_name ← lift (tag_of "type" target)
    qos ← arg_of "qos" default_qos req
    let (l, p) = split_qos qos
    with_tags topic type_name (
        report lib (backend.create_reader domain subscriber topic type_name l p) (λ holder_id.
          action lib "reader created" (
            ("domain", number domain)
            ∷ ("subscriber", text subscriber)
            ∷ ("topic", text topic)
            ∷ ("type", text type_name)
            ∷ ("id", number (pos holder_id))
            ∷ [])))
