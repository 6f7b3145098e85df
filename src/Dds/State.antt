-- ===== src/Dds/State.antt =====
-- The state of `DdsManager` (RtpDdsGateway/include/dds_manager.hpp) with that of its
-- `WaitSetDispatcher`, the results of its operations, and the entity counts that it hands to
-- `StatsManager`. A reason keeps what its message is made of.
use connext_triad.Prelude.{
  ℕ, ◌+◌, ℤ, String, Bool, true, false, Option, none, List, [], ◌∷◌, Map, length, int_eq, string_eq,
  lookup2, entries,
}

pub data EventMode : Type 0 where
  listener wait_set : EventMode

pub data ErrorCategory : Type 0 where
  no_error resource logic : ErrorCategory

pub data Reason : Type 0 where
  participant_exists participant_created : ℤ → Reason
  no_participant_for_publisher no_participant_for_subscriber : ℤ → Reason
  no_participant_for_writer no_participant_for_reader : ℤ → Reason
  publisher_exists publisher_created subscriber_exists subscriber_created : ℤ → String → Reason
  unknown_type : String → Reason
  type_conflict : String → String → String → Reason
  writer_exists reader_exists : ℤ → String → String → ℕ → Reason
  writer_failed reader_failed : String → Reason
  writer_created reader_created : ℕ → ℤ → String → String → Reason
  payload_not_object : Reason
  no_writer_for_topic : String → Reason
  publish_succeeded : String → ℕ → Reason
  no_domain : ℤ → Reason
  no_publisher no_topic no_type no_sample conversion_failed : String → Reason
  writer_type_mismatch : Reason
  publish_succeeded_at : ℤ → String → String → Reason
  writer_removed reader_removed no_writer_id no_reader_id : ℕ → Reason

pub record DdsResult : Type 0 where
  pub ok : Bool
  pub category : ErrorCategory
  pub reason : Reason

-- An operation returns a result, or an exception leaves it.
pub data Outcome : Type 0 where
  returns : DdsResult → Outcome
  throws : String → Outcome

abbrev pub success : Reason → Outcome
success r = returns (record { ok = true; category = no_error; reason = r })

abbrev pub failure : ErrorCategory → Reason → Outcome
failure c r = returns (record { ok = false; category = c; reason = r })

-- `WriterEntry` and `ReaderEntry`.
pub record Entry : Type 0 where
  pub id : ℕ
  pub holder : ℕ

-- The arguments of `StatsManager::set_entity_snapshot`.
pub record Counts : Type 0 where
  pub participants : ℕ
  pub publishers : ℕ
  pub subscribers : ℕ
  pub writers : ℕ
  pub readers : ℕ
  pub topics : ℕ

abbrev pub ByName : Type 0 → Type 0
ByName V = Map ℤ (Map String V)

abbrev pub Holders : Type 0
Holders = ByName (Map String (List Entry))

-- `monitored` and `polled` are the handlers in the two tables of the dispatcher; `sample_callbacks`
-- is what each reader's holder keeps of `on_sample_`.
pub record Manager (World : Type 0) : Type 0 where
  pub event_mode : EventMode
  pub participants : Map ℤ ℕ
  pub publishers : ByName ℕ
  pub subscribers : ByName ℕ
  pub writers : Holders
  pub readers : Holders
  pub topics : ByName ℕ
  pub topic_to_type : ByName String
  pub next_holder_id : ℕ
  pub on_sample : Option ℕ
  pub sample_callbacks : Map ℕ ℕ
  pub listening : List ℕ
  pub monitored : List ℕ
  pub polled : List ℕ
  pub dispatching : Bool
  pub stats : Counts
  pub world : World

-- Sums over the levels of the maps, as the loops that count entities make them.
unfoldable pub count_names {ℓ} : {V : Type ℓ} → Map ℤ (Map String V) → ℕ
count_names [] = 0
count_names ((d, names) ∷ m) = length names + count_names m

unfoldable pub count_topics : Map String (List Entry) → ℕ
count_topics [] = 0
count_topics ((t, es) ∷ m) = length es + count_topics m

unfoldable pub count_names_topics : Map String (Map String (List Entry)) → ℕ
unfolding count_topics
count_names_topics [] = 0
count_names_topics ((p, topics) ∷ m) = count_topics topics + count_names_topics m

unfoldable pub count_holders : Holders → ℕ
unfolding count_names_topics
count_holders [] = 0
count_holders ((d, names) ∷ m) = count_names_topics names + count_holders m

module _ {World : Type 0} where
  unfoldable pub create_manager : Counts → World → Manager World
  create_manager counts w = record {
    event_mode = listener;
    participants = [];
    publishers = [];
    subscribers = [];
    writers = [];
    readers = [];
    topics = [];
    topic_to_type = [];
    next_holder_id = 1;
    on_sample = none;
    sample_callbacks = [];
    listening = [];
    monitored = [];
    polled = [];
    dispatching = true;
    stats = counts;
    world = w;
  }

  unfoldable pub entity_counts : Manager World → Counts
  entity_counts m = record {
    participants = length m.participants;
    publishers = count_names m.publishers;
    subscribers = count_names m.subscribers;
    writers = count_holders m.writers;
    readers = count_holders m.readers;
    topics = count_names m.topics;
  }

  unfoldable pub publish_counts : Manager World → Manager World
  publish_counts m = record m { stats = entity_counts m }

  abbrev pub type_of : ℤ → String → Manager World → Option String
  type_of d topic m = lookup2 d topic m.topic_to_type

  abbrev pub writers_of : ℤ → String → String → Manager World → List Entry
  writers_of d pub_name topic m = entries d pub_name topic m.writers

  abbrev pub readers_of : ℤ → String → String → Manager World → List Entry
  readers_of d sub_name topic m = entries d sub_name topic m.readers
