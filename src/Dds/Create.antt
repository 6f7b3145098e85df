-- ===== src/Dds/Create.antt =====
-- RtpDdsGateway/src/dds_manager_entities.cpp: the creation of participants, publishers,
-- subscribers, writers and readers.
use connext_triad.Prelude.{
  ℕ, ◌+◌, ◌%◌, ◌^◌, ℤ, String, not, Option, none, some, [], ◌∷◌, ◌++◌, ◌==◌, string_eq, int_eq,
  nat_eq, lookup, insert, is_some, lookup2, insert2, touch, set_entries, count,
}
use connext_triad.Dds.External.{Rti, Attempt, gives, fails, done, raised}
use connext_triad.Dds.State.{
  Entry, Reason, throws, failure, resource, logic, publish_counts, type_of, writers_of, readers_of,
}
use connext_triad.Dds.Monad.{M, ◌>>=◌, ◌>>◌, pure, exit, gets, modify, outside, exit_if}
use connext_triad.Dds.Events.{register_reader_event, register_writer_event}

abbrev pub u64 : ℕ → ℕ
u64 n = n % 2 ^ 64

-- `return DdsResult(false, DdsErrorCategory::Logic, …)`
module _ {World : Type 0} where
  abbrev pub refuse : {A : Type 0} → Reason → M World A
  refuse r = exit (failure logic r)

  -- The exceptions of an external call leave the operation.
  abbrev pub or_throw : Attempt → M World ℕ
  or_throw (gives h) = pure h
  or_throw (fails what) = exit (throws what)

  -- `participants_`, which the checks of every other creation read.
  abbrev pub require_participant : ℤ → Reason → M World ℕ
  require_participant d missing = do
    found ← gets (λ m. lookup d m.participants)
    elim found [ none ↦ refuse missing | some p ↦ pure p ]

module _ (rti : Rti) where
  open rti use {
    World, Qos, find_or_reload, known_type, new_participant, new_publisher, new_subscriber,
    new_topic, set_topic_qos, new_writer, new_reader,
  }

  -- The attempt with the profile, if there is one.
  abbrev pub try_profile :
      (Option Qos → World → Attempt × World) → Option Qos → World → Attempt × World
  try_profile make none w = (fails "", w)
  try_profile make (some q) w = make (some q) w

  -- With the profile, and with the default where there is none or its use throws.
  unfoldable pub with_qos : (Option Qos → World → Attempt × World) → String → String → M World ℕ
  with_qos make lib prof = do
    pack ← outside (find_or_reload lib prof)
    first ← outside (try_profile make pack)
    elim first [ gives h ↦ pure h | fails _ ↦ do made ← outside (make none); or_throw made ]

  unfoldable pub create_participant : ℤ → String → String → M World Reason
  create_participant d lib prof = do
    old ← gets (λ m. count d m.participants)
    exit_if old (failure logic (Reason.participant_exists d))
    h ← with_qos new_participant lib prof
    modify (λ m. record m { participants = insert d h m.participants })
    modify publish_counts
    pure (Reason.participant_created d)

  -- The publisher, which `create_writer` takes from the map right after.
  unfoldable pub create_publisher_locked : ℤ → String → String → String → M World ℕ
  create_publisher_locked d pub_name lib prof = do
    participant ← require_participant d (Reason.no_participant_for_publisher d)
    modify (λ m. record m { publishers = touch d m.publishers })
    old ← gets (λ m. is_some (lookup2 d pub_name m.publishers))
    exit_if old (failure logic (Reason.publisher_exists d pub_name))
    h ← with_qos (new_publisher participant) lib prof
    modify (λ m. record m { publishers = insert2 d pub_name h m.publishers })
    modify publish_counts
    pure h

  unfoldable pub create_subscriber_locked : ℤ → String → String → String → M World ℕ
  create_subscriber_locked d sub_name lib prof = do
    participant ← require_participant d (Reason.no_participant_for_subscriber d)
    modify (λ m. record m { subscribers = touch d m.subscribers })
    old ← gets (λ m. is_some (lookup2 d sub_name m.subscribers))
    exit_if old (failure logic (Reason.subscriber_exists d sub_name))
    h ← with_qos (new_subscriber participant) lib prof
    modify (λ m. record m { subscribers = insert2 d sub_name h m.subscribers })
    modify publish_counts
    pure h

  unfoldable pub create_publisher : ℤ → String → String → String → M World Reason
  create_publisher d pub_name lib prof = do
    create_publisher_locked d pub_name lib prof >>= λ h. pure (Reason.publisher_created d pub_name)

  unfoldable pub create_subscriber : ℤ → String → String → String → M World Reason
  create_subscriber d sub_name lib prof = create_subscriber_locked d sub_name lib prof >>= λ h.
      pure (Reason.subscriber_created d sub_name)

  -- The type must be registered, and be the one that the topic has in the domain, if it has one.
  unfoldable pub check_type : ℤ → String → String → M World (Unit {0})
  check_type d topic type_name = do
    exit_if (not (known_type type_name)) (failure logic (Reason.unknown_type type_name))
    existing ← gets (type_of d topic)
    elim existing [
      | none ↦ pure tt
      | some t ↦
          exit_if (not (t == type_name)) (failure logic (Reason.type_conflict topic t type_name))
    ]

  -- The cached topic of the domain, or a new one.
  unfoldable pub topic_holder : ℤ → String → String → ℕ → M World ℕ
  topic_holder d topic type_name participant = do
    modify (λ m. record m { topics = touch d m.topics })
    cached ← gets (λ m. lookup2 d topic m.topics)
    elim cached [
      | some h ↦ pure h
      | none ↦ do
        made ← outside (new_topic type_name participant topic)
        h ← or_throw made
        modify (λ m. record m { topics = insert2 d topic h m.topics })
        pure h
    ]

  -- `factory(…, qos)` in a `try`, and again with the default in its handler.
  unfoldable pub make_endpoint :
      (Option Qos → World → Attempt × World) → (String → Reason) → String → String → M World ℕ
  make_endpoint make failed lib prof = do
    pack ← outside (find_or_reload lib prof)
    first ← outside (make pack)
    elim first [
      | gives h ↦ pure h
      | fails _ ↦ do
        second ← outside (make none)
        elim second [ gives h ↦ pure h | fails what ↦ exit (failure resource (failed what)) ]
    ]

  -- `next_holder_id_.fetch_add(1)`
  unfoldable pub fetch_id : M World ℕ
  fetch_id = do
    id ← gets (λ m. m.next_holder_id)
    modify (λ m. record m { next_holder_id = u64 (m.next_holder_id + 1) })
    pure id

  -- `topic_holder->set_qos` in a `try`: an exception is logged.
  unfoldable pub apply_topic_qos : ℕ → String → String → M World (Unit {0})
  apply_topic_qos holder lib prof = do
    pack ← outside (find_or_reload lib prof)
    elim pack [ none ↦ pure tt | some q ↦ outside (set_topic_qos holder q) >>= λ result. pure tt ]

  -- The same without the `try`, as `create_reader` has it.
  unfoldable pub apply_topic_qos_unguarded : ℕ → String → String → M World (Unit {0})
  apply_topic_qos_unguarded holder lib prof = do
    pack ← outside (find_or_reload lib prof)
    elim pack [
      | none ↦ pure tt
      | some q ↦ do
        result ← outside (set_topic_qos holder q)
        elim result [ done ↦ pure tt | raised what ↦ exit (throws what) ]
    ]

  -- The publisher of that name, which is made if there is none.
  unfoldable pub ensure_publisher : ℤ → String → String → String → M World ℕ
  ensure_publisher d pub_name lib prof = do
    modify (λ m. record m { publishers = touch d m.publishers })
    found ← gets (λ m. lookup2 d pub_name m.publishers)
    elim found [ some h ↦ pure h | none ↦ create_publisher_locked d pub_name lib prof ]

  unfoldable pub ensure_subscriber : ℤ → String → String → String → M World ℕ
  ensure_subscriber d sub_name lib prof = do
    modify (λ m. record m { subscribers = touch d m.subscribers })
    found ← gets (λ m. lookup2 d sub_name m.subscribers)
    elim found [ some h ↦ pure h | none ↦ create_subscriber_locked d sub_name lib prof ]

  -- `writers_[d][p][topic]`, which must be empty.
  unfoldable pub claim_writer_slot : ℤ → String → String → M World (Unit {0})
  claim_writer_slot d pub_name topic = do
    modify (λ m. record m {
      writers = set_entries d pub_name topic (writers_of d pub_name topic m) m.writers;
    })
    old ← gets (writers_of d pub_name topic)
    elim old [ [] ↦ pure tt | e ∷ es ↦ refuse (Reason.writer_exists d pub_name topic e.id) ]

  unfoldable pub claim_reader_slot : ℤ → String → String → M World (Unit {0})
  claim_reader_slot d sub_name topic = do
    modify (λ m. record m {
      readers = set_entries d sub_name topic (readers_of d sub_name topic m) m.readers;
    })
    old ← gets (readers_of d sub_name topic)
    elim old [ [] ↦ pure tt | e ∷ es ↦ refuse (Reason.reader_exists d sub_name topic e.id) ]

  -- The new entry and the type of its topic.
  unfoldable pub store_writer : ℤ → String → String → String → Entry → M World (Unit {0})
  store_writer d pub_name topic type_name e = modify (λ m. record m {
    writers = set_entries d pub_name topic (writers_of d pub_name topic m ++ e ∷ []) m.writers;
    topic_to_type = insert2 d topic type_name m.topic_to_type;
  })

  unfoldable pub store_reader : ℤ → String → String → String → Entry → M World (Unit {0})
  store_reader d sub_name topic type_name e = modify (λ m. record m {
    readers = set_entries d sub_name topic (readers_of d sub_name topic m ++ e ∷ []) m.readers;
    topic_to_type = insert2 d topic type_name m.topic_to_type;
  })

  -- The reader's holder keeps the callback that is installed now, if one is.
  unfoldable pub give_callback : ℕ → M World (Unit {0})
  give_callback holder = do
    installed ← gets (λ m. m.on_sample)
    elim installed [
      | none ↦ pure tt
      | some cb ↦ modify (λ m. record m { sample_callbacks = insert holder cb m.sample_callbacks })
    ]

  -- The value is the identifier that `out_id` gets.
  unfoldable pub create_writer :
      ℤ → String → String → String → String → String → M World (ℕ × Reason)
  create_writer d pub_name topic type_name lib prof = do
    check_type d topic type_name
    participant ← require_participant d (Reason.no_participant_for_writer d)
    publisher ← ensure_publisher d pub_name lib prof
    claim_writer_slot d pub_name topic
    holder ← topic_holder d topic type_name participant
    apply_topic_qos holder lib prof
    writer ← make_endpoint (new_writer type_name publisher holder) Reason.writer_failed lib prof
    id ← fetch_id
    store_writer d pub_name topic type_name (record { id = id; holder = writer })
    register_writer_event rti writer
    modify publish_counts
    pure (id, Reason.writer_created id d pub_name topic)

  unfoldable pub create_reader :
      ℤ → String → String → String → String → String → M World (ℕ × Reason)
  create_reader d sub_name topic type_name lib prof = do
    check_type d topic type_name
    participant ← require_participant d (Reason.no_participant_for_reader d)
    subscriber ← ensure_subscriber d sub_name lib prof
    claim_reader_slot d sub_name topic
    holder ← topic_holder d topic type_name participant
    apply_topic_qos_unguarded holder lib prof
    reader ← make_endpoint (new_reader type_name subscriber holder) Reason.reader_failed lib prof
    id ← fetch_id
    store_reader d sub_name topic type_name (record { id = id; holder = reader })
    give_callback reader
    register_reader_event rti reader
    modify publish_counts
    pure (id, Reason.reader_created id d sub_name topic)
