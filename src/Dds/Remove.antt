-- ===== src/Dds/Remove.antt =====
-- RtpDdsGateway/src/dds_manager_cleanup.cpp: `remove_writer` and `remove_reader`, and
-- `get_type_for_topic` of RtpDdsGateway/include/dds_manager.hpp.
mod Tests
use connext_triad.Prelude.{
  ℕ, ℤ, String, Bool, true, false, Option, none, some, List, [], ◌∷◌, Map, lookup, insert, erase,
  get_or, count, is_empty, any, ◌||◌, ◌==◌, nat_eq, string_eq, int_eq, if◌then◌else◌, insert2,
  entries, inner,
}
use connext_triad.Dds.External.{Rti}
use connext_triad.Dds.State.{
  Manager, Entry, Holders, ByName, Reason, writer_removed, reader_removed, no_writer_id,
  no_reader_id, logic, failure,
}
use connext_triad.Dds.Monad.{M, ◌>>=◌, ◌>>◌, pure, exit, gets, modify}
use connext_triad.Dds.Events.{without, unregister_reader_event, unregister_writer_event}

-- Where an entry stands, and its holder.
pub record Place : Type 0 where
  pub domain : ℤ
  pub name : String
  pub topic : String
  pub holder : ℕ

-- The loops that look for an identifier, from the inside out.
unfoldable pub find_entry : ℕ → List Entry → Option ℕ
find_entry id [] = none
find_entry id (e ∷ es) = if e.id == id then some e.holder else find_entry id es

unfoldable pub find_in_topics : ℕ → ℤ → String → Map String (List Entry) → Option Place
unfolding find_entry
find_in_topics id d p [] = none
find_in_topics id d p ((t, es) ∷ topics) = elim (find_entry id es) [
  | some h ↦ some (record { domain = d; name = p; topic = t; holder = h })
  | none ↦ find_in_topics id d p topics
]

unfoldable pub find_in_names : ℕ → ℤ → Map String (Map String (List Entry)) → Option Place
unfolding find_in_topics
find_in_names id d [] = none
find_in_names id d ((p, topics) ∷ names) = elim (find_in_topics id d p topics) [
  | some place ↦ some place
  | none ↦ find_in_names id d names
]

unfoldable pub find_place : ℕ → Holders → Option Place
unfolding find_in_names
find_place id [] = none
find_place id ((d, names) ∷ hs) = elim (find_in_names id d names) [
  | some place ↦ some place
  | none ↦ find_place id hs
]

-- `vec.erase(it)` of the entry that was found.
unfoldable pub drop_entry : ℕ → List Entry → List Entry
drop_entry id [] = []
drop_entry id (e ∷ es) = if e.id == id then es else e ∷ drop_entry id es

-- A topic without entries goes, and then a publisher or subscriber without topics.
unfoldable pub put_topics : ℤ → String → Map String (List Entry) → Holders → Holders
put_topics d p topics hs =
    if is_empty topics then insert d (erase p (get_or [] d hs)) hs else insert2 d p topics hs

unfoldable pub remove_entry : ℕ → ℤ → String → String → Holders → Holders
unfolding drop_entry put_topics
remove_entry id d p t hs =
    let es = drop_entry id (entries d p t hs) in
    put_topics d p (if is_empty es then erase t (inner d p hs) else insert t es (inner d p hs)) hs

-- Whether some publisher or subscriber of the domain has the topic in its map.
unfoldable pub has_topic : ℤ → String → Holders → Bool
has_topic d t hs = any (λ names. count t names.1) (get_or [] d hs)

unfoldable pub forget_type : ℤ → String → ByName String → ByName String
forget_type d t types = elim (lookup d types) [
  | none ↦ types
  | some names ↦ insert d (erase t names) types
]

unfoldable pub first_type : String → ByName String → String
first_type t [] = ""
first_type t ((d, names) ∷ types) = elim (lookup t names) [
  | some type_name ↦ type_name
  | none ↦ first_type t types
]

module _ {World : Type 0} where
  unfoldable pub get_type_for_topic : String → Manager World → String
  unfolding first_type
  get_type_for_topic t m = first_type t m.topic_to_type

  -- The type goes with the last writer or reader of the topic in the domain.
  unfoldable pub clean_type : ℤ → String → Manager World → Manager World
  unfolding has_topic forget_type
  clean_type d t m =
      if has_topic d t m.writers || has_topic d t m.readers
      then m
      else record m { topic_to_type = forget_type d t m.topic_to_type }

  -- What a destroyed holder kept.
  unfoldable pub drop_holder : ℕ → Manager World → Manager World
  drop_holder h m = record m {
    listening = without h m.listening;
    sample_callbacks = erase h m.sample_callbacks;
  }

module _ (rti : Rti) where
  open rti use {World}

  unfoldable pub remove_writer : ℕ → M World Reason
  remove_writer id = do
    found ← gets (λ m. find_place id m.writers)
    elim found [
      | none ↦ exit (failure logic (no_writer_id id))
      | some e ↦ do
        unregister_writer_event rti e.holder
        modify (λ m.
            drop_holder e.holder
              (record m { writers = remove_entry id e.domain e.name e.topic m.writers }))
        modify (clean_type e.domain e.topic)
        pure (writer_removed id)
    ]

  -- The type of the topic stays.
  unfoldable pub remove_reader : ℕ → M World Reason
  remove_reader id = do
    found ← gets (λ m. find_place id m.readers)
    elim found [
      | none ↦ exit (failure logic (no_reader_id id))
      | some e ↦ do
        unregister_reader_event rti e.holder
        modify (λ m.
            drop_holder e.holder
              (record m { readers = remove_entry id e.domain e.name e.topic m.readers }))
        pure (reader_removed id)
    ]
