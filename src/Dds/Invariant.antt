-- ===== src/Dds/Invariant.antt =====
-- How the maps of `DdsManager` fit together, and the updates that keep it so.
pub mod Endpoints
pub mod Keeps
pub mod Operations
pub mod Publish
pub mod Readers
pub mod Remove
pub mod Topics
pub mod Writers
use connext_triad.Prelude.{
  ℕ, ◌≤◌, ◌<◌, ℤ, String, true, List, [], ◌∷◌, ◌++◌, ◌≡◌, refl, arith, ◌==◌, string_eq, int_eq,
  lookup, insert, is_some, lookup2, insert2, touch, set_entries, entries, count, length, ◌&&◌,
  lookup-insert, lookup2-insert2, lookup2-touch, entries-set_entries, Map, ==_iff,
}
use connext_triad.Dds.State.{Manager, Entry, ByName, Holders}

-- The maps of entities, without the rest of the state.
pub record Entities : Type 0 where
  pub participants : Map ℤ ℕ
  pub publishers : ByName ℕ
  pub subscribers : ByName ℕ
  pub writers : Holders
  pub readers : Holders
  pub topics : ByName ℕ
  pub topic_to_type : ByName String

abbrev pub entities : {World : Type 0} → Manager World → Entities
entities m = record {
  participants = m.participants;
  publishers = m.publishers;
  subscribers = m.subscribers;
  writers = m.writers;
  readers = m.readers;
  topics = m.topics;
  topic_to_type = m.topic_to_type;
}

-- Every entity has its parent: a publisher and a subscriber the participant of their domain, a
-- writer its publisher and a reader its subscriber; the topic of each writer and reader is cached
-- and has a type; and no publisher has two writers, no subscriber two readers, of one topic.
pub record WellFormed (e : Entities) : Type 0 where
  pub publisher_parent :
      (d : ℤ) (p : String)
      → is_some (lookup2 d p e.publishers) ≡ true
      → count d e.participants ≡ true
  pub subscriber_parent :
      (d : ℤ) (s : String)
      → is_some (lookup2 d s e.subscribers) ≡ true
      → count d e.participants ≡ true
  pub writer_parent :
      (d : ℤ) (p t : String)
      → 0 < length (entries d p t e.writers)
      → is_some (lookup2 d p e.publishers) ≡ true
  pub reader_parent :
      (d : ℤ) (s t : String)
      → 0 < length (entries d s t e.readers)
      → is_some (lookup2 d s e.subscribers) ≡ true
  pub writer_topic :
      (d : ℤ) (p t : String)
      → 0 < length (entries d p t e.writers)
      → (is_some (lookup2 d t e.topics) ≡ true) × (is_some (lookup2 d t e.topic_to_type) ≡ true)
  pub reader_topic :
      (d : ℤ) (s t : String)
      → 0 < length (entries d s t e.readers)
      → (is_some (lookup2 d t e.topics) ≡ true) × (is_some (lookup2 d t e.topic_to_type) ≡ true)
  pub one_writer : (d : ℤ) (p t : String) → length (entries d p t e.writers) ≤ 1
  pub one_reader : (d : ℤ) (s t : String) → length (entries d s t e.readers) ≤ 1

pub empty-WellFormed : WellFormed (record {
  participants = [];
  publishers = [];
  subscribers = [];
  writers = [];
  readers = [];
  topics = [];
  topic_to_type = [];
})
unfolding lookup2 lookup entries
empty-WellFormed = record {
  publisher_parent = λ d p h. ground arith;
  subscriber_parent = λ d p h. ground arith;
  writer_parent = λ d p t h. absurd (omega arith);
  reader_parent = λ d p t h. absurd (omega arith);
  writer_topic = λ d p t h. absurd (omega arith);
  reader_topic = λ d p t h. absurd (omega arith);
  one_writer = λ d p t. omega arith;
  one_reader = λ d p t. omega arith;
}

module _ (e : Entities) (v : WellFormed e) (d : ℤ) (h : ℕ) where
  pub add_participant-WellFormed :
      WellFormed (record e { participants = insert d h e.participants })
  add_participant-WellFormed = record {
    publisher_parent =
        λ d' p k. ground (arith, lookup-insert d d' h e.participants, v.publisher_parent d' p k);
    subscriber_parent =
        λ d' p k. ground (arith, lookup-insert d d' h e.participants, v.subscriber_parent d' p k);
    writer_parent = v.writer_parent;
    reader_parent = v.reader_parent;
    writer_topic = v.writer_topic;
    reader_topic = v.reader_topic;
    one_writer = v.one_writer;
    one_reader = v.one_reader;
  }

  pub touch_publishers-WellFormed : WellFormed (record e { publishers = touch d e.publishers })
  touch_publishers-WellFormed = record {
    publisher_parent = λ d' p k. v.publisher_parent d' p (rw lookup2-touch at k);
    subscriber_parent = v.subscriber_parent;
    writer_parent = λ d' p t k. rw lookup2-touch (v.writer_parent d' p t k);
    reader_parent = v.reader_parent;
    writer_topic = v.writer_topic;
    reader_topic = v.reader_topic;
    one_writer = v.one_writer;
    one_reader = v.one_reader;
  }

  pub touch_subscribers-WellFormed : WellFormed (record e { subscribers = touch d e.subscribers })
  touch_subscribers-WellFormed = record {
    publisher_parent = v.publisher_parent;
    subscriber_parent = λ d' p k. v.subscriber_parent d' p (rw lookup2-touch at k);
    writer_parent = v.writer_parent;
    reader_parent = λ d' p t k. rw lookup2-touch (v.reader_parent d' p t k);
    writer_topic = v.writer_topic;
    reader_topic = v.reader_topic;
    one_writer = v.one_writer;
    one_reader = v.one_reader;
  }

  pub touch_topics-WellFormed : WellFormed (record e { topics = touch d e.topics })
  touch_topics-WellFormed = record {
    publisher_parent = v.publisher_parent;
    subscriber_parent = v.subscriber_parent;
    writer_parent = v.writer_parent;
    reader_parent = v.reader_parent;
    writer_topic = λ d' p t k. rw lookup2-touch (v.writer_topic d' p t k);
    reader_topic = λ d' p t k. rw lookup2-touch (v.reader_topic d' p t k);
    one_writer = v.one_writer;
    one_reader = v.one_reader;
  }

  pub add_publisher-WellFormed :
      (p : String)
      → count d e.participants ≡ true
      → WellFormed (record e { publishers = insert2 d p h e.publishers })
  add_publisher-WellFormed p part = record {
    publisher_parent = λ d' p' k.
        ground
          (arith, lookup2-insert2 d d' p p' h e.publishers, v.publisher_parent d' p', ==_iff d d');
    subscriber_parent = v.subscriber_parent;
    writer_parent = λ d' p' t k.
        ground (arith, lookup2-insert2 d d' p p' h e.publishers, v.writer_parent d' p' t k);
    reader_parent = v.reader_parent;
    writer_topic = v.writer_topic;
    reader_topic = v.reader_topic;
    one_writer = v.one_writer;
    one_reader = v.one_reader;
  }

  pub add_subscriber-WellFormed :
      (s : String)
      → count d e.participants ≡ true
      → WellFormed (record e { subscribers = insert2 d s h e.subscribers })
  add_subscriber-WellFormed s part = record {
    publisher_parent = v.publisher_parent;
    subscriber_parent = λ d' s' k.
        ground (
          arith,
          lookup2-insert2 d d' s s' h e.subscribers,
          v.subscriber_parent d' s',
          ==_iff d d',
        );
    writer_parent = v.writer_parent;
    reader_parent = λ d' s' t k.
        ground (arith, lookup2-insert2 d d' s s' h e.subscribers, v.reader_parent d' s' t k);
    writer_topic = v.writer_topic;
    reader_topic = v.reader_topic;
    one_writer = v.one_writer;
    one_reader = v.one_reader;
  }

  pub add_topic-WellFormed :
      (topic : String) → WellFormed (record e { topics = insert2 d topic h e.topics })
  add_topic-WellFormed topic = record {
    publisher_parent = v.publisher_parent;
    subscriber_parent = v.subscriber_parent;
    writer_parent = v.writer_parent;
    reader_parent = v.reader_parent;
    writer_topic = λ d' p' t k. (
      ground (arith, lookup2-insert2 d d' topic t h e.topics, v.writer_topic d' p' t k),
      (v.writer_topic d' p' t k).1,
    );
    reader_topic = λ d' p' t k. (
      ground (arith, lookup2-insert2 d d' topic t h e.topics, v.reader_topic d' p' t k),
      (v.reader_topic d' p' t k).1,
    );
    one_writer = v.one_writer;
    one_reader = v.one_reader;
  }
