-- ===== src/Holders/Factories.antt =====
-- `register_dds_type` of RtpDdsGateway/include/dds_type_registry.hpp, the factories that it installs,
-- and `init_dds_type_registry` of RtpDdsGateway/src/dds_type_registry.cpp. A C++ type is named by a
-- number; a factory is the type that its lambda captures.
use connext_triad.Prelude.{
  ℕ, String, Bool, true, false, Option, some, List, [], ◌∷◌, Map, lookup, insert, nat_eq, string_eq,
  ◌==◌, if◌then◌else◌, ◌≡◌, refl, arith, ◌∙◌, sym, ap, ◌⊎◌, inl, inr,
}
use connext_triad.Holders.Data.{runtime_error, Result, result, thrown}

-- A holder of an entity of a type.
pub record Holder : Type 0 where
  pub type : ℕ
  pub entity : ℕ

-- The constructors of the middleware: of a topic, a writer and a reader, the last two without and
-- with a QoS.
pub record Constructors (World Qos : Type 0) : Type 0 where
  pub topic : ℕ → ℕ → String → World → Result ℕ × World
  pub writer : ℕ → ℕ → ℕ → Option Qos → World → Result ℕ × World
  pub reader : ℕ → ℕ → ℕ → Option Qos → World → Result ℕ × World

pub record Factories : Type 0 where
  pub topic_factories : Map String ℕ
  pub writer_factories : Map String ℕ
  pub reader_factories : Map String ℕ
  pub once : Bool

unfoldable pub register_dds_type : ℕ → String → Factories → Factories
register_dds_type t type_name f = record f {
  topic_factories = insert type_name t f.topic_factories;
  writer_factories = insert type_name t f.writer_factories;
  reader_factories = insert type_name t f.reader_factories;
}

-- `install_factories` is generated: a list of registrations.
unfoldable pub install_factories : List (ℕ × String) → Factories → Factories
unfolding register_dds_type
install_factories [] f = f
install_factories ((t, type_name) ∷ rest) f =
    install_factories rest (register_dds_type t type_name f)

unfoldable pub init_dds_type_registry : List (ℕ × String) → Factories → Factories
unfolding install_factories
init_dds_type_registry types f =
    if f.once then f else record (install_factories types f) { once = true }

module _ {World Qos : Type 0} (make : Constructors World Qos) where
  abbrev held : ℕ → Result ℕ × World → Result Holder × World
  held t (result e, w) = (result (record { type = t; entity = e }), w)
  held t (thrown e, w) = (thrown e, w)

  unfoldable pub make_topic : ℕ → ℕ → String → World → Result Holder × World
  make_topic t participant name w = held t (make.topic t participant name w)

  -- `dynamic_cast` finds a holder of another type.
  unfoldable pub make_writer : ℕ → ℕ → Holder → Option Qos → World → Result Holder × World
  make_writer t publisher topic q w =
      if topic.type == t
      then held t (make.writer t publisher topic.entity q w)
      else (thrown (runtime_error "Topic type mismatch for Writer"), w)

  unfoldable pub make_reader : ℕ → ℕ → Holder → Option Qos → World → Result Holder × World
  make_reader t subscriber topic q w =
      if topic.type == t
      then held t (make.reader t subscriber topic.entity q w)
      else (thrown (runtime_error "Topic type mismatch for Reader"), w)

  held-type : (t : ℕ) (r : Result ℕ × World) (h : Holder) → (held t r).0 ≡ result h → h.type ≡ t
  held-type t (result e, w) h k = ground (arith, k)
  held-type t (thrown e, w) h k = absurd (ground (arith, k))

  make_writer-type :
      (t publisher : ℕ) (topic writer : Holder) (q : Option Qos) (w : World)
      → (make_writer t publisher topic q w).0 ≡ result writer
      → (writer.type ≡ t) × (topic.type ≡ t)
  unfolding make_writer
  make_writer-type t publisher topic writer q w k =
      ground (arith, k, held-type t (make.writer t publisher topic.entity q w) writer)

  make_reader-type :
      (t subscriber : ℕ) (topic reader : Holder) (q : Option Qos) (w : World)
      → (make_reader t subscriber topic q w).0 ≡ result reader
      → (reader.type ≡ t) × (topic.type ≡ t)
  unfolding make_reader
  make_reader-type t subscriber topic reader q w k =
      ground (arith, k, held-type t (make.reader t subscriber topic.entity q w) reader)

-- The three tables are the same.
record Agree (f : Factories) : Type 0 where
  writers : f.writer_factories ≡ f.topic_factories
  readers : f.reader_factories ≡ f.topic_factories

install-Agree :
    (types : List (ℕ × String)) (f : Factories) → Agree f → Agree (install_factories types f)
unfolding install_factories register_dds_type
install-Agree [] f a = a
install-Agree ((t, type_name) ∷ rest) f a =
    install-Agree rest (register_dds_type t type_name f) (record {
      writers = ap (insert type_name t) a.writers;
      readers = ap (insert type_name t) a.readers;
    })

abbrev pub no_factories : Factories
no_factories = record {
  topic_factories = [];
  writer_factories = [];
  reader_factories = [];
  once = false;
}

module _ {World Qos : Type 0} (make : Constructors World Qos) where
  -- After init_dds_type_registry, whatever types it installs: if the topic factory of one name makes
  -- a topic, and the writer factory (or the reader factory) of a name makes a writer (a reader) on
  -- it, then the second name is registered with the same type as the first, which is the type of the
  -- topic and of the writer (the reader).
  pub init_dds_type_registry-types :
      (types : List (ℕ × String)) (topic_name name : String) (t u participant parent : ℕ)
      (topic endpoint : Holder) (q : Option Qos) (w w' : World)
      → lookup topic_name (init_dds_type_registry types no_factories).topic_factories ≡ some t
      → (make_topic make t participant topic_name w).0 ≡ result topic
      → ((lookup name (init_dds_type_registry types no_factories).writer_factories ≡ some u)
          × ((make_writer make u parent topic q w').0 ≡ result endpoint))
        ⊎ ((lookup name (init_dds_type_registry types no_factories).reader_factories ≡ some u)
            × ((make_reader make u parent topic q w').0 ≡ result endpoint))
      → (lookup name (init_dds_type_registry types no_factories).topic_factories
          ≡ lookup topic_name (init_dds_type_registry types no_factories).topic_factories)
        × (topic.type ≡ t)
        × (endpoint.type ≡ t)
  unfolding init_dds_type_registry make_topic
  init_dds_type_registry-types types topic_name name t u participant parent topic endpoint q w w'
        found made (inl (l, m)) =
      let tables = install-Agree types no_factories (record { writers = refl; readers = refl }) in
      let typed = make_writer-type make u parent topic endpoint q w' m in
      let is_t = held-type make t (make.topic t participant topic_name w) topic made in
      let u_t : u ≡ t = sym typed.1 ∙ is_t in
      (ap (lookup name) (sym tables.writers) ∙ l ∙ ap some u_t ∙ sym found, is_t, typed.0 ∙ u_t)
  init_dds_type_registry-types types topic_name name t u participant parent topic endpoint q w w'
        found made (inr (l, m)) =
      let tables = install-Agree types no_factories (record { writers = refl; readers = refl }) in
      let typed = make_reader-type make u parent topic endpoint q w' m in
      let is_t = held-type make t (make.topic t participant topic_name w) topic made in
      let u_t : u ≡ t = sym typed.1 ∙ is_t in
      (ap (lookup name) (sym tables.readers) ∙ l ∙ ap some u_t ∙ sym found, is_t, typed.0 ∙ u_t)
