-- ===== src/Dds/Invariant/Endpoints.antt =====
-- The updates of the tables of writers and readers keep the maps well formed.
use connext_triad.Prelude.{
  ℤ, String, true, [], ◌∷◌, ◌++◌, ◌≡◌, arith, ◌==◌, string_eq, int_eq, is_some, lookup2, ◌∙◌,
  if◌then◌else◌, insert2, set_entries, entries, ◌&&◌, lookup2-insert2, entries-set_entries, ==_iff,
}
use connext_triad.Dds.State.{Entry}
use connext_triad.Dds.Invariant.{Entities, WellFormed}

module _ (e : Entities) (v : WellFormed e) (d : ℤ) (n t : String) where
  -- `writers_[d][n][t]` alone changes no list of entries.
  pub touch_writers-WellFormed :
      WellFormed (record e { writers = set_entries d n t (entries d n t e.writers) e.writers })
  touch_writers-WellFormed = record {
    publisher_parent = v.publisher_parent;
    subscriber_parent = v.subscriber_parent;
    writer_parent = λ d' n' t' k. v.writer_parent d' n' t' (rw (same d' n' t') at k);
    reader_parent = v.reader_parent;
    writer_topic = λ d' n' t' k. v.writer_topic d' n' t' (rw (same d' n' t') at k);
    reader_topic = v.reader_topic;
    one_writer = λ d' n' t'. rw (same d' n' t') (v.one_writer d' n' t');
    one_reader = v.one_reader;
  }
    where
      same :
          (d' : ℤ) (n' t' : String)
          → entries d' n' t' (set_entries d n t (entries d n t e.writers) e.writers)
            ≡ entries d' n' t' e.writers
      same d' n' t' = ground (
        arith,
        entries-set_entries d d' n n' t t' (entries d n t e.writers) e.writers,
        ==_iff d d',
        ==_iff n n',
        ==_iff t t',
      )

  pub touch_readers-WellFormed :
      WellFormed (record e { readers = set_entries d n t (entries d n t e.readers) e.readers })
  touch_readers-WellFormed = record {
    publisher_parent = v.publisher_parent;
    subscriber_parent = v.subscriber_parent;
    writer_parent = v.writer_parent;
    reader_parent = λ d' n' t' k. v.reader_parent d' n' t' (rw (same d' n' t') at k);
    writer_topic = v.writer_topic;
    reader_topic = λ d' n' t' k. v.reader_topic d' n' t' (rw (same d' n' t') at k);
    one_writer = v.one_writer;
    one_reader = λ d' n' t'. rw (same d' n' t') (v.one_reader d' n' t');
  }
    where
      same :
          (d' : ℤ) (n' t' : String)
          → entries d' n' t' (set_entries d n t (entries d n t e.readers) e.readers)
            ≡ entries d' n' t' e.readers
      same d' n' t' = ground (
        arith,
        entries-set_entries d d' n n' t t' (entries d n t e.readers) e.readers,
        ==_iff d d',
        ==_iff n n',
        ==_iff t t',
      )

  module _ (type_name : String) (x : Entry) where
    type_kept :
        (d' : ℤ) (t' : String)
        → is_some (lookup2 d' t' e.topic_to_type) ≡ true
        → is_some (lookup2 d' t' (insert2 d t type_name e.topic_to_type)) ≡ true
    type_kept d' t' k = ground (arith, lookup2-insert2 d d' t t' type_name e.topic_to_type)

    -- A writer of an existing publisher, in an empty slot, of a cached topic.
    pub store_writer-WellFormed :
        is_some (lookup2 d n e.publishers) ≡ true
        → entries d n t e.writers ≡ []
        → is_some (lookup2 d t e.topics) ≡ true
        → WellFormed (record e {
          writers = set_entries d n t (entries d n t e.writers ++ x ∷ []) e.writers;
          topic_to_type = insert2 d t type_name e.topic_to_type;
        })
    store_writer-WellFormed parent free cached = record {
      publisher_parent = v.publisher_parent;
      subscriber_parent = v.subscriber_parent;
      writer_parent = λ d' n' t' k.
          ground (arith, slot d' n' t', v.writer_parent d' n' t', ==_iff d d', ==_iff n n');
      reader_parent = v.reader_parent;
      writer_topic = λ d' n' t' k. ground (
        arith,
        slot d' n' t',
        v.writer_topic d' n' t',
        ==_iff d d',
        ==_iff t t',
        lookup2-insert2 d d' t t' type_name e.topic_to_type,
      );
      reader_topic = λ d' n' t' k.
          ((v.reader_topic d' n' t' k).0, type_kept d' t' (v.reader_topic d' n' t' k).1);
      one_writer = λ d' n' t'. ground (arith, slot d' n' t', v.one_writer d' n' t');
      one_reader = v.one_reader;
    }
      where
        slot :
            (d' : ℤ) (n' t' : String)
            → entries d' n' t' (set_entries d n t (entries d n t e.writers ++ x ∷ []) e.writers) ≡ (
                if (d == d') && ((n == n') && (t == t'))
                then x ∷ []
                else entries d' n' t' e.writers)
        slot d' n' t' =
            entries-set_entries d d' n n' t t' (entries d n t e.writers ++ x ∷ []) e.writers
            ∙ ground (arith, free)

    pub store_reader-WellFormed :
        is_some (lookup2 d n e.subscribers) ≡ true
        → entries d n t e.readers ≡ []
        → is_some (lookup2 d t e.topics) ≡ true
        → WellFormed (record e {
          readers = set_entries d n t (entries d n t e.readers ++ x ∷ []) e.readers;
          topic_to_type = insert2 d t type_name e.topic_to_type;
        })
    store_reader-WellFormed parent free cached = record {
      publisher_parent = v.publisher_parent;
      subscriber_parent = v.subscriber_parent;
      writer_parent = v.writer_parent;
      reader_parent = λ d' n' t' k.
          ground (arith, slot d' n' t', v.reader_parent d' n' t', ==_iff d d', ==_iff n n');
      writer_topic = λ d' n' t' k.
          ((v.writer_topic d' n' t' k).0, type_kept d' t' (v.writer_topic d' n' t' k).1);
      reader_topic = λ d' n' t' k. ground (
        arith,
        slot d' n' t',
        v.reader_topic d' n' t',
        ==_iff d d',
        ==_iff t t',
        lookup2-insert2 d d' t t' type_name e.topic_to_type,
      );
      one_writer = v.one_writer;
      one_reader = λ d' n' t'. ground (arith, slot d' n' t', v.one_reader d' n' t');
    }
      where
        slot :
            (d' : ℤ) (n' t' : String)
            → entries d' n' t' (set_entries d n t (entries d n t e.readers ++ x ∷ []) e.readers) ≡ (
                if (d == d') && ((n == n') && (t == t'))
                then x ∷ []
                else entries d' n' t' e.readers)
        slot d' n' t' =
            entries-set_entries d d' n n' t t' (entries d n t e.readers ++ x ∷ []) e.readers
            ∙ ground (arith, free)
