-- ===== src/Rpc/Hello.antt =====
-- `build_hello_capabilities` of RtpDdsGateway/src/ipc_adapter.cpp and the answer that carries it.
use connext_triad.Prelude.{◌∷◌, [], pos, String, true}
use connext_triad.Rpc.Json.{JsonLib}
use connext_triad.Rpc.Handler.{H, pure, Answer, Fields}
use connext_triad.Rpc.Create.{default_qos}

module _ (lib : JsonLib) where
  open lib use {Json, object, array, text, number, boolean}

  abbrev capability : String → Fields lib → Json
  capability name example = object (("name", text name) ∷ ("example", object example) ∷ [])

  -- An example request with an empty `args`, or one that is filled.
  abbrev request : String → Fields lib → Fields lib → Fields lib
  request op target rest = ("op", text op) ∷ ("target", object target) ∷ rest

  abbrev args : Fields lib → Fields lib
  args fields = ("args", object (("domain", number (pos 0)) ∷ fields)) ∷ []

  abbrev qos : Fields lib
  qos = ("qos", text default_qos) ∷ []

  abbrev kind : String → Fields lib
  kind name = ("kind", text name) ∷ []

  abbrev endpoint : String → Fields lib
  endpoint name =
      ("kind", text name) ∷ ("topic", text "ExampleTopic") ∷ ("type", text "ExampleType") ∷ []

  unfoldable pub build_hello_capabilities : Json
  build_hello_capabilities = array (
      capability "create.participant" (request "create" (kind "participant") (args qos))
      ∷ capability "create.publisher"
          (request "create" (kind "publisher") (args (("publisher", text "pub1") ∷ qos)))
      ∷ capability "create.subscriber"
          (request "create" (kind "subscriber") (args (("subscriber", text "sub1") ∷ qos)))
      ∷ capability "create.writer"
          (request "create" (endpoint "writer") (args (("publisher", text "pub1") ∷ qos)))
      ∷ capability "create.reader"
          (request "create" (endpoint "reader") (args (("subscriber", text "sub1") ∷ qos)))
      ∷ capability "write" (
          request "write" (("kind", text "writer") ∷ ("topic", text "chat") ∷ [])
            (("data", object (("text", text "Hello world") ∷ [])) ∷ []))
      ∷ capability "get.qos" (request "get" (kind "qos") [])
      ∷ capability "set.qos" (
          request "set" (kind "qos") (
            (
              "data",
              object (
                  ("library", text "NGVA_QoS_Library")
                  ∷ ("profile", text "custom_profile")
                  ∷ ("xml", text "<qos_profile name=\"custom_profile\">...</qos_profile>")
                  ∷ []),
            )
            ∷ []))
      ∷ object (
          ("name", text "evt.data")
          ∷ (
            "description",
            text
                "Gateway sends EVT messages when DDS samples are received. See protocol doc for evt.data format.",
          )
          ∷ [])
      ∷ [])

  unfoldable pub do_hello : {State : Type 0} → H State (Answer lib)
  unfolding build_hello_capabilities
  do_hello = pure (record {
    ok = true;
    rsp =
        ("ok", boolean true)
        ∷ ("result", object (("proto", number (pos 1)) ∷ ("cap", build_hello_capabilities) ∷ []))
        ∷ [];
  })
