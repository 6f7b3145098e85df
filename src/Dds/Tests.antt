-- ===== src/Dds/Tests.antt =====
-- The manager with a small middleware: `World` counts the samples that exist, every creation gives
-- a handle, and the profile store has no profile.
use connext_triad.Prelude.{
  ℕ, ◌+◌, ◌-◌, pos, Bool, true, none, some, List, [], ◌∷◌, ◌≡◌, refl, arith, ◌||◌, ◌==◌, string_eq,
  lookup2, lookup, insert, touch, entries, set_entries, insert2,
}
use connext_triad.Dds.External.{Rti, gives, done}
use connext_triad.Dds.State.{
  Counts, wait_set, Manager, Reason, create_manager, publish_counts, failure, logic,
}
use connext_triad.Dds.Monad.{value, leave, ◌>>=◌}
use connext_triad.Dds.Events.{enable_listener, register_reader_event, register_writer_event}
use connext_triad.Dds.Create.{
  with_qos, create_participant, create_writer, create_reader, check_type, topic_holder,
  make_endpoint, fetch_id, apply_topic_qos, apply_topic_qos_unguarded, ensure_publisher,
  ensure_subscriber, create_publisher_locked, create_subscriber_locked, claim_writer_slot,
  claim_reader_slot, store_writer, store_reader, give_callback,
}
use connext_triad.Dds.Samples.{TypeEntry, Samples}
use connext_triad.Dds.Publish.{publish_json}
use connext_triad.Dds.Publish.Balance.{Counted, publish_json-live}
use connext_triad.Dds.Invariant.{entities, WellFormed}
use connext_triad.Dds.Invariant.Writers.{create_writer-slot}
use connext_triad.Dds.State.{writers_of}
use connext_triad.Dds.Calls.{
  after, Call, participant, writer, reader, publish, clear, mode, after_all,
}
use connext_triad.Dds.Calls.Reachable.{reachable-WellFormed}
use connext_triad.Dds.Results.{create_writer-conflict}

abbrev pub small_rti : Rti
small_rti = record {
  World = ℕ;
  Qos = Unit {0};
  find_or_reload = λ lib prof w. (none, w);
  known_type = λ t. (t == "Chat") || (t == "Alarm");
  new_participant = λ q w. (gives 10, w);
  new_publisher = λ p q w. (gives 20, w);
  new_subscriber = λ p q w. (gives 30, w);
  new_topic = λ t p n w. (gives 40, w);
  set_topic_qos = λ h q w. (done, w);
  new_writer = λ t p h q w. (gives 50, w);
  new_reader = λ t s h q w. (gives 60, w);
  set_listener = λ h w. (done, w);
  attach_status = λ h w. (done, w);
  attach_read = λ h w. (done, w);
  detach_status = λ h w. (done, w);
  detach_read = λ h w. (done, w);
}

abbrev pub small_entry : TypeEntry ℕ
small_entry = record { create = λ w. (some 1, w + 1); destroy = λ s w. w - 1 }

abbrev small_samples : Samples ℕ
small_samples = record {
  Json = Bool;
  is_object = λ j. j;
  dump_error = λ j. none;
  type_registry = λ t. some small_entry;
  json_registry = λ t. some (λ j s w. (true, w));
  write_any = λ h s w. (done, w);
}

abbrev no_entities : Counts
no_entities = record {
  participants = 0;
  publishers = 0;
  subscribers = 0;
  writers = 0;
  readers = 0;
  topics = 0;
}

abbrev pub fresh : Manager ℕ
fresh = create_manager no_entities 0

abbrev pub with_participant : Manager ℕ
with_participant = (create_participant small_rti (pos 0) "" "" fresh).1

abbrev with_writer : Manager ℕ
with_writer = (create_writer small_rti (pos 0) "pub1" "chat" "Chat" "" "" with_participant).1

abbrev with_reader : Manager ℕ
with_reader = (create_reader small_rti (pos 0) "sub1" "chat" "Chat" "" "" with_participant).1

writer_is_created :
    (create_writer small_rti (pos 0) "pub1" "chat" "Chat" "" "" with_participant).0
    ≡ value (1, Reason.writer_created 1 (pos 0) "pub1" "chat")
unfolding ◌>>=◌ create_participant create_writer check_type ensure_publisher create_publisher_locked
    claim_writer_slot topic_holder apply_topic_qos make_endpoint fetch_id store_writer
    register_writer_event enable_listener with_qos create_manager lookup2 lookup publish_counts
    insert touch entries set_entries insert2
writer_is_created = refl

reader_is_created :
    (create_reader small_rti (pos 0) "sub1" "chat" "Chat" "" "" with_participant).0
    ≡ value (1, Reason.reader_created 1 (pos 0) "sub1" "chat")
unfolding ◌>>=◌ create_participant create_reader check_type ensure_subscriber
    create_subscriber_locked claim_reader_slot topic_holder apply_topic_qos_unguarded make_endpoint
    fetch_id store_reader give_callback register_reader_event enable_listener with_qos
    create_manager lookup2 lookup publish_counts insert touch entries set_entries insert2
reader_is_created = refl

abbrev conflict : Reason
conflict = Reason.type_conflict "chat" "Chat" "Alarm"

create_writer-conflict_example :
    (create_reader small_rti (pos 0) "sub1" "chat" "Alarm" "" "" with_writer
      ≡ (leave (failure logic conflict), with_writer))
    × (create_writer small_rti (pos 0) "sub1" "chat" "Alarm" "" "" with_writer
        ≡ (leave (failure logic conflict), with_writer))
create_writer-conflict_example =
    create_writer-conflict small_rti (pos 0) "pub1" "chat" "Chat" "" "" with_participant
      (1, Reason.writer_created 1 (pos 0) "pub1" "chat") writer_is_created "sub1" "Alarm" "" "" refl
      refl

abbrev session : List (Call small_rti small_samples)
session =
    mode wait_set
    ∷ participant (pos 0) "" ""
    ∷ writer (pos 0) "pub1" "chat" "Chat" "" ""
    ∷ reader (pos 0) "sub1" "chat" "Alarm" "" ""
    ∷ publish "chat" true
    ∷ clear
    ∷ reader (pos 0) "sub1" "chat" "Alarm" "" ""
    ∷ []

reachable-WellFormed_example :
    WellFormed (entities (after_all small_rti small_samples session (create_manager no_entities 0)))
reachable-WellFormed_example = reachable-WellFormed small_rti small_samples no_entities 0 session

small_samples-Counted : Counted small_samples (λ w. w)
small_samples-Counted = record {
  create_none = λ t entry w k e. ground (arith, k, e);
  create_some = λ t entry w s k e. ground (arith, k, e);
  destroy_one = λ t entry w s k l. ground (arith, k, l);
  convert_none = λ t from_json j s w k. ground (arith, k);
  write_none = λ h s w. refl;
}

publish_json-live_example :
    (publish_json small_samples "chat" true with_writer).1.world ≡ with_writer.world
publish_json-live_example =
    publish_json-live small_samples (λ w. w) small_samples-Counted "chat" true with_writer

pub with_participant-WellFormed : WellFormed (entities with_participant)
unfolding after_all after
with_participant-WellFormed =
    reachable-WellFormed small_rti small_samples no_entities 0 (participant (pos 0) "" "" ∷ [])

create_writer-slot_example :
    (h : ℕ) × (writers_of (pos 0) "pub1" "chat" with_writer ≡ record { id = 1; holder = h } ∷ [])
create_writer-slot_example =
    create_writer-slot small_rti (pos 0) "pub1" "chat" "Chat" "" "" with_participant
      (1, Reason.writer_created 1 (pos 0) "pub1" "chat") with_participant-WellFormed
      writer_is_created
