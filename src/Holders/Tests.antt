-- ===== src/Holders/Tests.antt =====
-- The holders with a small middleware: batches of samples that are still to be taken, and the events
-- that the callback has put into a queue.
use connext_triad.Prelude.{
  ℕ, ◌+◌, pos, true, false, none, some, List, [], ◌∷◌, ◌++◌, ◌≡◌, refl, length, ltb, if◌then◌else◌,
  lookup, insert, inl, get_elem?, arith, string_eq,
}
use connext_triad.Holders.Factories.{
  Constructors, make_topic, make_writer, no_factories, init_dds_type_registry,
  init_dds_type_registry-types,
}
use connext_triad.Stats as Stats
use connext_triad.Holders.Data.{Result, result, AnyData, shared}
use connext_triad.Holders.Reader as Reader
use connext_triad.Holders.Reader.{
  Loan, Enabling, enabled, ReaderLib, SampleCallback, ReaderHolder, Reading, create, process_data,
  set_sample_callback,
}
use connext_triad.Holders.Pool.{
  values, slots, counted, read, process_data-delivers, process_data-overwrites,
}

abbrev numbered : Constructors ℕ ℕ
numbered = record {
  topic = λ t participant name w. (result w, w + 1);
  writer = λ t publisher topic q w. (result w, w + 1);
  reader = λ t subscriber topic q w. (result w, w + 1);
}

init_dds_type_registry-types_example :
    (lookup "Chat"
        (init_dds_type_registry ((7, "Chat") ∷ (8, "Alarm") ∷ []) no_factories).topic_factories
      ≡ lookup "Chat"
          (init_dds_type_registry ((7, "Chat") ∷ (8, "Alarm") ∷ []) no_factories).topic_factories)
    × (◌≡◌ {A = ℕ} 7 7)
    × (◌≡◌ {A = ℕ} 7 7)
unfolding lookup insert init_dds_type_registry make_topic make_writer
init_dds_type_registry-types_example =
    init_dds_type_registry-types numbered ((7, "Chat") ∷ (8, "Alarm") ∷ []) "Chat" "Chat" 7 7 1 2
      (record { type = 7; entity = 20 }) (record { type = 7; entity = 30 }) none 20 30 refl refl
      (inl (refl, refl))

record Feed : Type 0 where
  batches : List (List (Loan ℕ))
  queued : List AnyData

abbrev take_batch : Feed → Result (List (Loan ℕ)) × Feed
take_batch w = elim w.batches [
  | [] ↦ (result [], w)
  | samples ∷ rest ↦ (result samples, record w { batches = rest })
]

abbrev small_lib : ReaderLib Feed ℕ
small_lib = record {
  type_name = "Alarm";
  topic_description = λ w. result "alarms";
  take = take_batch;
  enable = λ w. (enabled, w);
  subscription_matched_status = λ w. (result (pos 1), w);
  requested_incompatible_qos_status = λ w. (result (pos 0), w);
  sample_lost_status = λ w. (result (pos 0), w);
  set_listener = λ present mask w. (result tt, w);
}

abbrev to_queue : SampleCallback Feed
to_queue topic type_name d w = (result tt, record w { queued = w.queued ++ d ∷ [] })

abbrev data_of : ℕ → Loan ℕ
data_of n = record { valid = true; value = n }

abbrev disposed : Loan ℕ
disposed = record { valid = false; value = 0 }

abbrev holder : ReaderHolder Feed
holder = record {
  topic_name = "alarms";
  sample_callback = some to_queue;
  guarded = false;
  current_mask = λ s. false;
}

abbrev first_batch : List (Loan ℕ)
first_batch = data_of 3 ∷ disposed ∷ data_of 5 ∷ []

abbrev second_batch : List (Loan ℕ)
second_batch = data_of 8 ∷ []

abbrev start : Reading Feed ℕ
start = record {
  stats = Stats.create;
  sample_pool = [];
  pool_index = 0;
  world = record { batches = first_batch ∷ second_batch ∷ []; queued = [] };
}

process_data-delivers_example :
    ((process_data small_lib holder start).0 ≡ result tt)
    × ((process_data small_lib holder start).1.pool_index ≡ 0)
    × ((process_data small_lib holder start).1.world.queued
        ≡ (take_batch start.world).1.queued ++ slots 0 (length (values first_batch)))
    × ((process_data small_lib holder start).1.stats
        ≡ counted "alarms" (length (values first_batch)) start.stats)
    × (read (process_data small_lib holder start).1.sample_pool (shared 1) ≡ (
        if ltb 1 (length (values first_batch))
        then get_elem? (values first_batch) 1
        else read start.sample_pool (shared 1)))
process_data-delivers_example =
    process_data-delivers small_lib (λ w. w.queued) to_queue (λ t n d w. (refl, refl)) holder refl
      first_batch start 1 refl refl

-- The first event was queued for 3, and reads as 8 after the second call.
first_event :
    read
      (process_data small_lib holder (process_data small_lib holder start).1).1.sample_pool
      (shared 0)
    ≡ some 8
unfolding process_data Reader.deliver Reader.hand_over Reader.claim Reader.reset_index
first_event = refl

taken_next : (take_batch (process_data small_lib holder start).1.world).0 ≡ result second_batch
unfolding process_data Reader.deliver Reader.hand_over Reader.claim Reader.reset_index
taken_next = refl

process_data-overwrites_example :
    read
      (process_data small_lib holder (process_data small_lib holder start).1).1.sample_pool
      (shared 0)
    ≡ (if ltb 0 (length (values second_batch))
        then get_elem? (values second_batch) 0
        else get_elem? (values first_batch) 0)
process_data-overwrites_example =
    process_data-overwrites small_lib (λ w. w.queued) to_queue (λ t n d w. (refl, refl)) holder refl
      first_batch second_batch start 0 refl taken_next refl (omega arith)
