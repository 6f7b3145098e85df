-- ===== src/Dds/Results.antt =====
-- What a successful creation of an endpoint leaves behind for later ones: the type of its topic.
pub mod Counts
use connext_triad.Prelude.{
  ℕ, ℤ, String, true, false, Bool, some, ◌≡◌, refl, sym, ap, subst, arith, ◌==◌, ◌∙◌, string_eq,
  int_eq, lookup, lookup2, insert2, lookup2-insert2, ==_refl, ◌++◌, [], ◌∷◌, Option-cases, not,
}
use connext_triad.Dds.External.{Rti}
use connext_triad.Dds.State.{
  Manager, Entry, Reason, Outcome, failure, logic, type_of, entity_counts, publish_counts,
}
use connext_triad.Dds.Monad.{
  succeeds, M, Exit, value, leave, ◌>>=◌, Post, Triple, bind, bind_gets, change, finish, modify,
  exit_if,
}
use connext_triad.Dds.Events.{register_writer_event, register_reader_event}
use connext_triad.Dds.Create.{
  create_participant, create_publisher_locked, create_subscriber_locked, create_publisher,
  create_subscriber, create_writer, create_reader, check_type, store_writer, store_reader,
}
use connext_triad.Dds.Invariant.{Entities, entities}
use connext_triad.Dds.Invariant.Keeps.{
  KeepsEntities, register_writer_event_keeps, register_reader_event_keeps, publish_counts_keeps,
  give_callback_keeps,
}

module _ {World : Type 0} where
  abbrev pub Anything : Manager World → Type 0
  Anything m = Unit {0}

  abbrev pub AnyEnd : Outcome → Manager World → Type 0
  AnyEnd o m = Unit {0}

  pub anyhow :
      {A : Type 0} (P : Manager World → Type 0) (op : M World A)
      → Triple P op (λ _. Anything) AnyEnd
  anyhow {A} P op = record { run = λ m p. ended (op m) }
    where
      ended : (r : Exit A × Manager World) → Post (λ _. Anything) AnyEnd r
      ended (value a, m) = tt
      ended (leave o, m) = tt

  bind_leave :
      {A B : Type 0} {o : Outcome} (op : M World A) (f : A → M World B) (m : Manager World)
      → op m ≡ (leave o, m)
      → (op >>= f) m ≡ (leave o, m)
  unfolding ◌>>=◌
  bind_leave {B = B} op f m e =
      ap
        (λ r. elim r.0 as (λ _. Exit B × Manager World) [
          | value a ↦ f a r.1
          | leave o ↦ (leave o, r.1)
        ])
        e

  -- What a successful operation satisfies.
  pub succeeded :
      {A : Type 0} {op : M World A} {Q : A → Manager World → Type 0} (m : Manager World) (a : A)
      → Triple Anything op Q AnyEnd
      → (op m).0 ≡ value a
      → Q a (op m).1
  succeeded m a t e = succeeds m a t tt e

  abbrev Typed : ℤ → String → String → Manager World → Type 0
  Typed d topic t m = type_of d topic m ≡ some t

  keeps_type :
      {A : Type 0} {op : M World A} (d : ℤ) (topic t : String)
      → KeepsEntities op
      → Triple (Typed d topic t) op (λ _. Typed d topic t) AnyEnd
  keeps_type {A} {op} d topic t k = record { run = λ m p. ended m (op m) (k m) p }
    where
      ended :
          (m : Manager World) (r : Exit A × Manager World)
          → entities r.1 ≡ entities m
          → Typed d topic t m
          → Post (λ _. Typed d topic t) AnyEnd r
      ended m (value a, m') e p = ap (λ es. lookup2 d topic es.topic_to_type) e ∙ p
      ended m (leave o, m') e p = tt

module _ (rti : Rti) where
  open rti use {World, known_type}

  create_writer-Typed :
      (d : ℤ) (n topic t lib prof : String)
      → Triple Anything (create_writer rti d n topic t lib prof) (λ _. Typed d topic t) AnyEnd
  unfolding create_writer store_writer
  create_writer-Typed d n topic t lib prof =
      bind (λ _. Anything) (anyhow _ _)
        λ _.
          bind (λ _. Anything) (anyhow _ _)
            λ participant.
              bind (λ _. Anything) (anyhow _ _)
                λ publisher.
                  bind (λ _. Anything) (anyhow _ _)
                    λ _.
                      bind (λ _. Anything) (anyhow _ _)
                        λ holder.
                          bind (λ _. Anything) (anyhow _ _)
                            λ _.
                              bind (λ _. Anything) (anyhow _ _)
                                λ writer.
                                  bind (λ _. Anything) (anyhow _ _)
                                    λ id.
                                      bind (λ _. Typed d topic t)
                                        (change (λ m p. ground (
                                          arith,
                                          lookup2-insert2 d d topic topic t m.topic_to_type,
                                          ==_refl d,
                                          ==_refl topic,
                                        )))
                                        λ _.
                                          bind (λ _. Typed d topic t)
                                            (keeps_type d topic t
                                              (register_writer_event_keeps rti writer))
                                            λ _.
                                              bind (λ _. Typed d topic t)
                                                (keeps_type d topic t (publish_counts_keeps rti))
                                                λ _. finish (λ m p. p)

  create_reader-Typed :
      (d : ℤ) (n topic t lib prof : String)
      → Triple Anything (create_reader rti d n topic t lib prof) (λ _. Typed d topic t) AnyEnd
  unfolding create_reader store_reader
  create_reader-Typed d n topic t lib prof =
      bind (λ _. Anything) (anyhow _ _)
        λ _.
          bind (λ _. Anything) (anyhow _ _)
            λ participant.
              bind (λ _. Anything) (anyhow _ _)
                λ subscriber.
                  bind (λ _. Anything) (anyhow _ _)
                    λ _.
                      bind (λ _. Anything) (anyhow _ _)
                        λ holder.
                          bind (λ _. Anything) (anyhow _ _)
                            λ _.
                              bind (λ _. Anything) (anyhow _ _)
                                λ reader.
                                  bind (λ _. Anything) (anyhow _ _)
                                    λ id.
                                      bind (λ _. Typed d topic t)
                                        (change (λ m p. ground (
                                          arith,
                                          lookup2-insert2 d d topic topic t m.topic_to_type,
                                          ==_refl d,
                                          ==_refl topic,
                                        )))
                                        λ _.
                                          bind (λ _. Typed d topic t)
                                            (keeps_type d topic t (give_callback_keeps rti reader))
                                            λ _.
                                              bind (λ _. Typed d topic t)
                                                (keeps_type d topic t
                                                  (register_reader_event_keeps rti reader))
                                                λ _.
                                                  bind (λ _. Typed d topic t)
                                                    (keeps_type d topic t
                                                      (publish_counts_keeps rti))
                                                    λ _. finish (λ m p. p)

  check_type-conflict :
      (d : ℤ) (topic t t' : String) (m : Manager World)
      → Typed d topic t m
      → known_type t' ≡ true
      → (t == t') ≡ false
      → check_type rti d topic t' m ≡ (leave (failure logic (Reason.type_conflict topic t t')), m)
  unfolding check_type ◌>>=◌ lookup2 lookup
  check_type-conflict d topic t t' m typed known other = rw (known, typed, other) refl

  refused_both :
      (d : ℤ) (topic t t' n lib prof : String) (m : Manager World)
      → Typed d topic t m
      → known_type t' ≡ true
      → (t == t') ≡ false
      → (create_reader rti d n topic t' lib prof m
          ≡ (leave (failure logic (Reason.type_conflict topic t t')), m))
        × (create_writer rti d n topic t' lib prof m
            ≡ (leave (failure logic (Reason.type_conflict topic t t')), m))
  unfolding create_reader create_writer
  refused_both d topic t t' n lib prof m typed known other = (
    bind_leave _ _ m (check_type-conflict d topic t t' m typed known other),
    bind_leave _ _ m (check_type-conflict d topic t t' m typed known other),
  )

  -- If `create_writer` for a topic and a type succeeds, then `create_reader` and `create_writer` for
  -- that topic in the domain with any other registered type are refused with the conflict of the
  -- two types, and leave the manager as it is.
  pub create_writer-conflict :
      (d : ℤ) (n topic t lib prof : String) (m : Manager World) (v : ℕ × Reason)
      → (create_writer rti d n topic t lib prof m).0 ≡ value v
      → (n' t' lib' prof' : String) → known_type t' ≡ true
      → (t == t') ≡ false
      → (create_reader rti d n' topic t' lib' prof' (create_writer rti d n topic t lib prof m).1 ≡ (
        leave (failure logic (Reason.type_conflict topic t t')),
        (create_writer rti d n topic t lib prof m).1,
      ))
        × (create_writer rti d n' topic t' lib' prof' (create_writer rti d n topic t lib prof m).1
            ≡ (
              leave (failure logic (Reason.type_conflict topic t t')),
              (create_writer rti d n topic t lib prof m).1,
            ))
  create_writer-conflict d n topic t lib prof m v ok n' t' lib' prof' known other =
      refused_both d topic t t' n' lib' prof' (create_writer rti d n topic t lib prof m).1
        (succeeded m v (create_writer-Typed d n topic t lib prof) ok) known other

  -- If `create_reader` for a topic and a type succeeds, then `create_reader` and `create_writer` for
  -- that topic in the domain with any other registered type are refused with the conflict of the
  -- two types, and leave the manager as it is.
  pub create_reader-conflict :
      (d : ℤ) (n topic t lib prof : String) (m : Manager World) (v : ℕ × Reason)
      → (create_reader rti d n topic t lib prof m).0 ≡ value v
      → (n' t' lib' prof' : String) → known_type t' ≡ true
      → (t == t') ≡ false
      → (create_reader rti d n' topic t' lib' prof' (create_reader rti d n topic t lib prof m).1 ≡ (
        leave (failure logic (Reason.type_conflict topic t t')),
        (create_reader rti d n topic t lib prof m).1,
      ))
        × (create_writer rti d n' topic t' lib' prof' (create_reader rti d n topic t lib prof m).1
            ≡ (
              leave (failure logic (Reason.type_conflict topic t t')),
              (create_reader rti d n topic t lib prof m).1,
            ))
  create_reader-conflict d n topic t lib prof m v ok n' t' lib' prof' known other =
      refused_both d topic t t' n' lib' prof' (create_reader rti d n topic t lib prof m).1
        (succeeded m v (create_reader-Typed d n topic t lib prof) ok) known other
