-- ===== src/Dds/Invariant/Remove.antt =====
-- The removal of a writer or a reader keeps the maps well formed.
use connext_triad.Prelude.{
  ℕ, ◌≤◌, ℤ, String, false, Option, none, some, List, [], ◌∷◌, Map, ◌≡◌, refl, arith, ◌∙◌, lookup,
  insert, erase, get_or, count, is_empty, any, ◌&&◌, ◌==◌, nat_eq, string_eq, int_eq, if◌then◌else◌,
  lookup2, insert2, entries, inner, length, lookup-insert, lookup-erase, lookup-get_or, ==_iff,
  Bool-cases, inl, inr, get_or-inner,
}
use connext_triad.Dds.External.{Rti}
use connext_triad.Dds.State.{Manager, Entry, Holders, ByName}
use connext_triad.Dds.Monad.{◌>>=◌, Triple, bind, bind_gets, change, finish, give_up, strengthen}
use connext_triad.Dds.Events.{
  detach_monitor, detach_data, unregister_reader_event, unregister_writer_event,
}
use connext_triad.Dds.Remove.{
  drop_entry, put_topics, remove_entry, has_topic, forget_type, clean_type, drop_holder,
  remove_writer, remove_reader,
}
use connext_triad.Dds.Invariant.{Entities, entities, WellFormed}
use connext_triad.Dds.Invariant.Keeps.{On, Fails, KeepsEntities, keeps}

length-drop_entry : (id : ℕ) (es : List Entry) → length (drop_entry id es) ≤ length es
unfolding drop_entry
length-drop_entry id [] = omega arith
length-drop_entry id (e ∷ es) = ground (arith, length-drop_entry id es)

entries-put_topics :
    (d d' : ℤ) (p p' t' : String) (topics : Map String (List Entry)) (hs : Holders)
    → entries d' p' t' (put_topics d p topics hs)
      ≡ (if (d == d') && (p == p') then get_or [] t' topics else entries d' p' t' hs)
unfolding put_topics entries lookup2 insert2 lookup
entries-put_topics d d' p p' t' [] hs = ground (
  arith,
  lookup-insert d d' (erase p (get_or [] d hs)) hs,
  lookup-erase p p' (get_or [] d hs),
  ==_iff d d',
)
entries-put_topics d d' p p' t' (x ∷ topics) hs = ground (
  arith,
  lookup-insert d d' (insert p (x ∷ topics) (get_or [] d hs)) hs,
  lookup-insert p p' (x ∷ topics) (get_or [] d hs),
  ==_iff d d',
)

get_or-put :
    (t t' : String) (es : List Entry) (topics : Map String (List Entry))
    → get_or [] t' (if is_empty es then erase t topics else insert t es topics)
      ≡ (if t == t' then es else get_or [] t' topics)
get_or-put t t' [] topics = ground (arith, lookup-erase t t' topics)
get_or-put t t' (e ∷ es) topics = ground (arith, lookup-insert t t' (e ∷ es) topics)

entries-remove_entry :
    (id : ℕ) (d d' : ℤ) (p p' t t' : String) (hs : Holders)
    → entries d' p' t' (remove_entry id d p t hs) ≡ (
        if (d == d') && ((p == p') && (t == t'))
        then drop_entry id (entries d p t hs)
        else entries d' p' t' hs)
unfolding remove_entry
entries-remove_entry id d d' p p' t t' hs =
    let es : List Entry = drop_entry id (entries d p t hs) in
    let topics : Map String (List Entry) =
      if is_empty es then erase t (inner d p hs) else insert t es (inner d p hs) in
    entries-put_topics d d' p p' t' topics hs
    ∙ ground
        (arith, get_or-put t t' es (inner d p hs), get_or-inner d p t' hs, ==_iff d d', ==_iff p p')

shortened :
    (id : ℕ) (d d' : ℤ) (n n' t t' : String) (hs : Holders)
    → length (entries d' n' t' (remove_entry id d n t hs)) ≤ length (entries d' n' t' hs)
shortened id d d' n n' t t' hs = ground (
  arith,
  entries-remove_entry id d d' n n' t t' hs,
  length-drop_entry id (entries d n t hs),
  ==_iff d d',
  ==_iff n n',
  ==_iff t t',
)

lookup2-forget_type :
    (d d' : ℤ) (t t' : String) (types : ByName String)
    → lookup2 d' t' (forget_type d t types)
      ≡ (if (d == d') && (t == t') then none else lookup2 d' t' types)
unfolding forget_type lookup2
lookup2-forget_type d d' t t' types = by_found (lookup d types) refl
  where
    by_found :
        (o : Option (Map String String))
        → lookup d types ≡ o
        → lookup2 d' t' (forget_type d t types)
          ≡ (if (d == d') && (t == t') then none else lookup2 d' t' types)
    by_found none e = ground (arith, e, ==_iff d d')
    by_found (some names) e =
        ground
          (arith, e, ==_iff d d', lookup-insert d d' (erase t names) types, lookup-erase t t' names)

-- A topic that no map of the domain has is a topic without entries.
absent :
    (t : String) (p : String) (topics : Map String (List Entry))
    (names : Map String (Map String (List Entry)))
    → any (λ n. count t n.1) names ≡ false
    → lookup p names ≡ some topics
    → count t topics ≡ false
unfolding lookup
absent t p topics [] h e = absurd (ground (arith, e))
absent t p topics ((p', topics') ∷ names) h e = elim (Bool-cases (p' == p)) [
  | inl same ↦ ground (arith, h, e, same)
  | inr differs ↦ absent t p topics names (ground (arith, h)) (ground (arith, e, differs))
]

entries-has_topic :
    (d : ℤ) (p t : String) (hs : Holders) → has_topic d t hs ≡ false → entries d p t hs ≡ []
unfolding has_topic entries
entries-has_topic d p t hs h = by_found (lookup2 d p hs) refl
  where
    by_found :
        (o : Option (Map String (List Entry)))
        → lookup2 d p hs ≡ o
        → elim o [ none ↦ [] | some n ↦ get_or [] t n ] ≡ []
    by_found none e = refl
    by_found (some topics) e =
        ground (arith, absent t p topics (get_or [] d hs) h (lookup-get_or d p hs ∙ e))

module _ (e : Entities) (v : WellFormed e) (id : ℕ) (d : ℤ) (n t : String) where
  pub remove_writer_entry-WellFormed :
      WellFormed (record e { writers = remove_entry id d n t e.writers })
  remove_writer_entry-WellFormed = record {
    publisher_parent = v.publisher_parent;
    subscriber_parent = v.subscriber_parent;
    writer_parent = λ d' n' t' k. v.writer_parent d' n' t' (omega (arith, shorter d' n' t'));
    reader_parent = v.reader_parent;
    writer_topic = λ d' n' t' k. v.writer_topic d' n' t' (omega (arith, shorter d' n' t'));
    reader_topic = v.reader_topic;
    one_writer = λ d' n' t'. omega (arith, shorter d' n' t', v.one_writer d' n' t');
    one_reader = v.one_reader;
  }
    where
      shorter :
          (d' : ℤ) (n' t' : String)
          → length (entries d' n' t' (remove_entry id d n t e.writers))
            ≤ length (entries d' n' t' e.writers)
      shorter d' n' t' = shortened id d d' n n' t t' e.writers

  pub remove_reader_entry-WellFormed :
      WellFormed (record e { readers = remove_entry id d n t e.readers })
  remove_reader_entry-WellFormed = record {
    publisher_parent = v.publisher_parent;
    subscriber_parent = v.subscriber_parent;
    writer_parent = v.writer_parent;
    reader_parent = λ d' n' t' k. v.reader_parent d' n' t' (omega (arith, shorter d' n' t'));
    writer_topic = v.writer_topic;
    reader_topic = λ d' n' t' k. v.reader_topic d' n' t' (omega (arith, shorter d' n' t'));
    one_writer = v.one_writer;
    one_reader = λ d' n' t'. omega (arith, shorter d' n' t', v.one_reader d' n' t');
  }
    where
      shorter :
          (d' : ℤ) (n' t' : String)
          → length (entries d' n' t' (remove_entry id d n t e.readers))
            ≤ length (entries d' n' t' e.readers)
      shorter d' n' t' = shortened id d d' n n' t t' e.readers

  forget_type-WellFormed :
      has_topic d t e.writers ≡ false
      → has_topic d t e.readers ≡ false
      → WellFormed (record e { topic_to_type = forget_type d t e.topic_to_type })
  forget_type-WellFormed no_writer no_reader = record {
    publisher_parent = v.publisher_parent;
    subscriber_parent = v.subscriber_parent;
    writer_parent = v.writer_parent;
    reader_parent = v.reader_parent;
    writer_topic = λ d' n' t' k. (
      (v.writer_topic d' n' t' k).0,
      ground (
        arith,
        k,
        lookup2-forget_type d d' t t' e.topic_to_type,
        (v.writer_topic d' n' t' k).1,
        ==_iff d d',
        ==_iff t t',
        entries-has_topic d n' t e.writers no_writer,
      ),
    );
    reader_topic = λ d' n' t' k. (
      (v.reader_topic d' n' t' k).0,
      ground (
        arith,
        k,
        lookup2-forget_type d d' t t' e.topic_to_type,
        (v.reader_topic d' n' t' k).1,
        ==_iff d d',
        ==_iff t t',
        entries-has_topic d n' t e.readers no_reader,
      ),
    );
    one_writer = v.one_writer;
    one_reader = v.one_reader;
  }

clean_type-WellFormed :
    {World : Type 0} (d : ℤ) (t : String) (m : Manager World)
    → WellFormed (entities m)
    → WellFormed (entities (clean_type d t m))
unfolding clean_type
clean_type-WellFormed d t m v = elim (Bool-cases (has_topic d t m.writers)) [
  | inl has ↦ rw has v
  | inr no_writer ↦ elim (Bool-cases (has_topic d t m.readers)) [
    | inl has ↦ rw (no_writer, has) v
    | inr no_reader ↦
        rw (no_writer, no_reader)
          (forget_type-WellFormed (entities m) v 0 d "" t no_writer no_reader)
  ]
]

module _ (rti : Rti) where
  open rti use {World}

  unregister_writer_event_keeps : (h : ℕ) → KeepsEntities (unregister_writer_event rti h)
  unfolding ◌>>=◌ unregister_writer_event detach_monitor
  unregister_writer_event_keeps h m = ground arith

  unregister_reader_event_keeps : (h : ℕ) → KeepsEntities (unregister_reader_event rti h)
  unfolding ◌>>=◌ unregister_reader_event detach_monitor detach_data
  unregister_reader_event_keeps h m = ground arith

  pub remove_writer-WellFormed :
      (id : ℕ) → Triple (On WellFormed) (remove_writer rti id) (λ _. On WellFormed) Fails
  unfolding remove_writer drop_holder
  remove_writer-WellFormed id = bind_gets (elim [
    | none ↦ give_up (λ m q. q.0)
    | some place ↦
        strengthen
          (bind (λ _. On WellFormed)
            (keeps WellFormed (unregister_writer_event_keeps place.holder) (λ e v. v))
            λ _.
              bind (λ _. On WellFormed)
                (change (λ m v.
                  remove_writer_entry-WellFormed (entities m) v id place.domain place.name
                    place.topic))
                λ _.
                  bind (λ _. On WellFormed)
                    (change (λ m v. clean_type-WellFormed place.domain place.topic m v))
                    λ _. finish (λ m v. v))
          (λ m q. q.0)
  ])

  pub remove_reader-WellFormed :
      (id : ℕ) → Triple (On WellFormed) (remove_reader rti id) (λ _. On WellFormed) Fails
  unfolding remove_reader drop_holder
  remove_reader-WellFormed id = bind_gets (elim [
    | none ↦ give_up (λ m q. q.0)
    | some place ↦
        strengthen
          (bind (λ _. On WellFormed)
            (keeps WellFormed (unregister_reader_event_keeps place.holder) (λ e v. v))
            λ _.
              bind (λ _. On WellFormed)
                (change (λ m v.
                  remove_reader_entry-WellFormed (entities m) v id place.domain place.name
                    place.topic))
                λ _. finish (λ m v. v))
          (λ m q. q.0)
  ])
