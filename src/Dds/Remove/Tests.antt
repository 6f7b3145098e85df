-- ===== src/Dds/Remove/Tests.antt =====
-- The removal of a writer and of a reader of one topic.
use connext_triad.Prelude.{
  ℕ, pos, [], ◌∷◌, ◌≡◌, refl, lookup, insert, erase, lookup2, insert2, entries, inner, nat_eq,
}
use connext_triad.Dds.State.{Manager, create_manager}
use connext_triad.Dds.Monad.{◌>>=◌}
use connext_triad.Dds.Events.{
  without, detach_monitor, detach_data, unregister_writer_event, unregister_reader_event,
}
use connext_triad.Dds.Remove.{
  remove_writer, remove_reader, get_type_for_topic, find_place, remove_entry, clean_type,
  drop_holder,
}
use connext_triad.Dds.Tests.{small_rti, fresh}

abbrev two_endpoints : Manager ℕ
two_endpoints = record fresh {
  writers = (pos 0, ("pub1", ("chat", record { id = 1; holder = 50 } ∷ []) ∷ []) ∷ []) ∷ [];
  readers = (pos 0, ("sub1", ("chat", record { id = 2; holder = 60 } ∷ []) ∷ []) ∷ []) ∷ [];
  topic_to_type = (pos 0, ("chat", "Chat") ∷ []) ∷ [];
  monitored = 50 ∷ 60 ∷ [];
  polled = 60 ∷ [];
}

abbrev one_reader : Manager ℕ
one_reader = (remove_writer small_rti 1 two_endpoints).1

-- The reader keeps the type of the topic.
writer_goes :
    (one_reader.writers ≡ (pos 0, []) ∷ [])
    × (one_reader.monitored ≡ 60 ∷ [])
    × (get_type_for_topic "chat" one_reader ≡ "Chat")
unfolding remove_writer unregister_writer_event detach_monitor find_place remove_entry clean_type
    drop_holder ◌>>=◌ lookup insert erase insert2 entries inner lookup2 without get_type_for_topic
    create_manager
writer_goes = (refl, refl, refl)

-- The last reader goes without the type.
reader_goes :
    ((remove_reader small_rti 2 one_reader).1.readers ≡ (pos 0, []) ∷ [])
    × ((remove_reader small_rti 2 one_reader).1.polled ≡ [])
    × (get_type_for_topic "chat" (remove_reader small_rti 2 one_reader).1 ≡ "Chat")
unfolding remove_writer remove_reader unregister_writer_event unregister_reader_event detach_data
    detach_monitor find_place remove_entry clean_type drop_holder ◌>>=◌ lookup insert erase insert2
    entries inner lookup2 without get_type_for_topic create_manager
reader_goes = (refl, refl, refl)
