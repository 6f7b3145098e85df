-- ===== src/Rpc/Requests.antt =====
-- What a client's well-formed requests ask of the manager, for a JSON library that reads objects
-- back as they were built.
use connext_triad.Prelude.{
  Bool, negsuc, ltb, ◌^◌, ℤ, pos, ◌∷◌, [], ◌≡◌, ◌≢◌, refl, ◌∙◌, ap, String, true, false, some,
  lookup, is_some, ◌==◌, string_eq, arith, ==_iff, if◌then◌else◌,
}
use connext_triad.Rpc.Json.{JsonLib, Result, result, thrown}
use connext_triad.Rpc.Backend.{Backend}
use connext_triad.Rpc.Handler.{
  H, ◌>>=◌, lift, pure, message, Answer, split_qos, Fields, report, action,
}
use connext_triad.Rpc.Create.{default_qos, create_reader, create_writer, tag_of, with_tags}
use connext_triad.Rpc.Handlers.{do_write, write_topic, has_object}
use connext_triad.Rpc.Process.{handle, dispatch, create_kind}

-- The numbers of an `int`, as which the domain is read.
abbrev pub is_int : ℤ → Bool
is_int (pos n) = ltb n (2 ^ 31)
is_int (negsuc n) = ltb n (2 ^ 31)

-- What the documentation of the JSON library says of objects.
pub record ReadsObjects (lib : JsonLib) : Type 0 where
  pub item :
      (k : String) (j : lib.Json) (fields : Fields lib)
      → lookup k fields ≡ some j
      → lib.item k (lib.object fields) ≡ result j
  pub contains :
      (k : String) (fields : Fields lib)
      → lib.contains k (lib.object fields) ≡ is_some (lookup k fields)
  pub is_object : (fields : Fields lib) → lib.is_object (lib.object fields) ≡ true
  pub value_text :
      (k default t : String) (fields : Fields lib)
      → lookup k fields ≡ some (lib.text t)
      → lib.value_text k default (lib.object fields) ≡ result t
  pub value_int :
      (k : String) (default n : ℤ) (fields : Fields lib)
      → is_int n ≡ true
      → lookup k fields ≡ some (lib.number n)
      → lib.value_int k default (lib.object fields) ≡ result n
  pub value_json :
      (k : String) (default j : lib.Json) (fields : Fields lib)
      → lookup k fields ≡ some j
      → lib.value_json k default (lib.object fields) ≡ result j

-- Requests as a client sends them.
module _ (lib : JsonLib) where
  open lib use {Json, object, text, number}

  abbrev pub endpoint_request : String → ℤ → String → String → String → String → String → Json
  endpoint_request kind d owner name topic type_name qos = object (
      ("op", text "create")
      ∷ (
        "target",
        object (("kind", text kind) ∷ ("topic", text topic) ∷ ("type", text type_name) ∷ []),
      )
      ∷ ("args", object (("domain", number d) ∷ (owner, text name) ∷ ("qos", text qos) ∷ []))
      ∷ [])

  abbrev pub write_request : String → Fields lib → Json
  write_request topic fields = object (
      ("op", text "write")
      ∷ ("target", object (("kind", text "writer") ∷ ("topic", text topic) ∷ []))
      ∷ ("data", object fields)
      ∷ [])

module _ {State : Type 0} where
  after_read :
      {A B : Type 0} {a : A} (op : H State A) (f : A → H State B) (s : State)
      → op s ≡ (result a, s)
      → (op >>= f) s ≡ f a s
  unfolding ◌>>=◌
  after_read {B = B} op f s e =
      ap
        (λ r. elim r.0 as (λ _. Result B × State) [
          | result x ↦ f x r.1
          | thrown what ↦ (thrown what, r.1)
        ])
        e

  step :
      {A B : Type 0} {r : Result A} {a : A} (f : A → H State B) (s : State)
      → r ≡ result a
      → (lift r >>= f) s ≡ f a s
  step {r = r} f s e = after_read (lift r) f s (ap (λ x. (x, s)) e)

  -- An argument, which is read in two steps.
  step_arg :
      {A B C : Type 0} {r : Result A} {a : A} (g : A → Result B) {b : B} (f : B → H State C)
      (s : State)
      → r ≡ result a
      → g a ≡ result b
      → ((lift r >>= λ x. lift (g x)) >>= f) s ≡ f b s
  step_arg {r = r} g f s e e' = after_read _ f s (step (λ x. lift (g x)) s e ∙ ap (λ x. (x, s)) e')

module _ {lib : JsonLib} (laws : ReadsObjects lib) (backend : Backend lib) where
  open lib use {Json, object, text, number}
  open backend use {State}

  not_empty : (t : String) → t ≢ "" → (t == "") ≡ false
  not_empty t h = ground (arith, h, ==_iff t "")

  tag_of-object :
      (k t : String) (fields : Fields lib)
      → lookup k fields ≡ some (text t)
      → tag_of backend k (object fields) ≡ result t
  unfolding tag_of
  tag_of-object k t fields e =
      rw (laws.contains k fields, tag_of) (rw (e, tag_of) (laws.value_text k "" t fields e))

  with_tags-some :
      (topic type_name : String) (make : H State (Answer lib))
      → topic ≢ ""
      → type_name ≢ ""
      → with_tags backend topic type_name make ≡ make
  unfolding with_tags
  with_tags-some topic type_name make ht hy =
      rw (not_empty topic ht, with_tags) (rw (not_empty type_name hy, with_tags) refl)

  -- A request to create a writer that names all its fields, its domain an `int`, topic and type not empty, makes one
  -- call of the manager, with these arguments and the profile split at `::`, and its result is
  -- reported, with the identifier of the new writer. The library reads back the objects it builds.
  pub create_writer_request :
      (d : ℤ) (n topic type_name qos : String) (s : State)
      → is_int d ≡ true
      → topic ≢ ""
      → type_name ≢ ""
      → handle backend (endpoint_request lib "writer" d "publisher" n topic type_name qos) s
        ≡ report lib
            (backend.create_writer d n topic type_name (split_qos qos).0 (split_qos qos).1)
            (λ holder_id. action lib "writer created" (
              ("domain", number d)
              ∷ ("publisher", text n)
              ∷ ("topic", text topic)
              ∷ ("type", text type_name)
              ∷ ("id", number (pos holder_id))
              ∷ []))
            s
  unfolding handle dispatch create_kind create_writer lookup
  create_writer_request d n topic type_name qos s hd ht hy =
      step _ s (laws.value_text "op" "" "create" _ refl)
      ∙ step _ s (laws.value_json "target" _ _ _ refl)
      ∙ step _ s (laws.value_text "kind" "" "writer" _ refl)
      ∙ step_arg _ _ s (laws.item "args" _ _ refl) (laws.value_int "domain" (pos 0) d _ hd refl)
      ∙ step_arg _ _ s (laws.item "args" _ _ refl) (laws.value_text "publisher" "pub1" n _ refl)
      ∙ step _ s (tag_of-object "topic" topic _ refl)
      ∙ step _ s (tag_of-object "type" type_name _ refl)
      ∙ step_arg _ _ s (laws.item "args" _ _ refl) (laws.value_text "qos" default_qos qos _ refl)
      ∙ ap (λ h. h s) (with_tags-some topic type_name _ ht hy)

  -- A request to create a reader that names all its fields, its domain an `int`, topic and type not empty, makes one
  -- call of the manager, with these arguments and the profile split at `::`, and its result is
  -- reported, with the identifier of the new reader. The library reads back the objects it builds.
  pub create_reader_request :
      (d : ℤ) (n topic type_name qos : String) (s : State)
      → is_int d ≡ true
      → topic ≢ ""
      → type_name ≢ ""
      → handle backend (endpoint_request lib "reader" d "subscriber" n topic type_name qos) s
        ≡ report lib
            (backend.create_reader d n topic type_name (split_qos qos).0 (split_qos qos).1)
            (λ holder_id. action lib "reader created" (
              ("domain", number d)
              ∷ ("subscriber", text n)
              ∷ ("topic", text topic)
              ∷ ("type", text type_name)
              ∷ ("id", number (pos holder_id))
              ∷ []))
            s
  unfolding handle dispatch create_kind create_reader lookup
  create_reader_request d n topic type_name qos s hd ht hy =
      step _ s (laws.value_text "op" "" "create" _ refl)
      ∙ step _ s (laws.value_json "target" _ _ _ refl)
      ∙ step _ s (laws.value_text "kind" "" "reader" _ refl)
      ∙ step_arg _ _ s (laws.item "args" _ _ refl) (laws.value_int "domain" (pos 0) d _ hd refl)
      ∙ step_arg _ _ s (laws.item "args" _ _ refl) (laws.value_text "subscriber" "sub1" n _ refl)
      ∙ step _ s (tag_of-object "topic" topic _ refl)
      ∙ step _ s (tag_of-object "type" type_name _ refl)
      ∙ step_arg _ _ s (laws.item "args" _ _ refl) (laws.value_text "qos" default_qos qos _ refl)
      ∙ ap (λ h. h s) (with_tags-some topic type_name _ ht hy)

  has_object-object :
      (k : String) (fields inner : Fields lib)
      → lookup k fields ≡ some (object inner)
      → has_object backend k (object fields) ≡ result true
  unfolding has_object
  has_object-object k fields inner e =
      rw (laws.contains k fields, has_object)
        (rw (e, has_object)
          (rw (laws.item k (object inner) fields e, has_object) (ap result (laws.is_object inner))))

  -- A request to write with a topic that is not empty and an object that can be dumped makes one call of
  -- the manager, with that topic and that object, and its result is reported. The library reads
  -- back the objects it builds.
  pub write_request_lem :
      (topic preview : String) (fields : Fields lib) (s : State)
      → topic ≢ ""
      → lib.dump (object fields) ≡ result preview
      → handle backend (write_request lib topic fields) s
        ≡ report lib
            (backend.publish_json topic (object fields))
            (λ _. action lib "publish ok" (("topic", text topic) ∷ []))
            s
  unfolding handle dispatch do_write write_topic lookup
  write_request_lem topic preview fields s ht hd =
      step _ s (laws.value_text "op" "" "write" _ refl)
      ∙ step _ s (laws.value_json "target" _ _ _ refl)
      ∙ step _ s (laws.value_text "kind" "" "writer" _ refl)
      ∙ step _ s (laws.value_text "topic" "" topic _ refl)
      ∙ ap
          (λ b.
            (if b
                then pure (message lib 6 "Missing topic tag")
                else write_topic backend (write_request lib topic fields) topic)
              s)
          (not_empty topic ht)
      ∙ step _ s (has_object-object "data" _ fields refl)
      ∙ step _ s (laws.item "data" _ _ refl)
      ∙ step _ s hd
