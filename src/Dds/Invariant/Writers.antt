-- ===== src/Dds/Invariant/Writers.antt =====
-- `create_writer` keeps the maps well formed and fills its slot.
use connext_triad.Prelude.{
  ℕ, ◌≡◌, ◌++◌, arith, entries, entries-set_entries, ==_refl, ℤ, String, [], ◌∷◌, string_eq, int_eq,
}
use connext_triad.Dds.External.{Rti}
use connext_triad.Dds.State.{Manager, Reason, writers_of, Entry}
use connext_triad.Dds.Monad.{
  value, weaken, succeeds, Triple, bind, bind_gets, change, finish, give_up,
}
use connext_triad.Dds.Create.{claim_writer_slot, store_writer, create_writer}
use connext_triad.Dds.Invariant.{
  Entities, entities, WellFormed, touch_topics-WellFormed, add_topic-WellFormed,
}
use connext_triad.Dds.Invariant.Endpoints.{touch_writers-WellFormed, store_writer-WellFormed}
use connext_triad.Dds.Invariant.Keeps.{
  On, Fails, keeps, make_endpoint_keeps, apply_topic_qos_keeps, fetch_id_keeps,
  register_writer_event_keeps, publish_counts_keeps, check_type_keeps,
}
use connext_triad.Dds.Invariant.Operations.{
  WithParticipant, WithPublisher, WithWriterSlot, WithTopic, require_participant-WellFormed,
  ensure_publisher-WellFormed,
}
use connext_triad.Dds.Invariant.Topics.{topic_holder-WellFormed}

module _ (rti : Rti) where
  open rti use {World}

  claim_writer_slot-WellFormed :
      (d : ℤ) (p t : String)
      → Triple {World = World}
          (On (WithPublisher d p))
          (claim_writer_slot rti d p t)
          (λ _. On (WithWriterSlot d p t))
          Fails
  unfolding claim_writer_slot
  claim_writer_slot-WellFormed d p t =
      bind (λ _. On (WithPublisher d p))
        (change (λ m v. (touch_writers-WellFormed (entities m) v.0 d p t, v.1, v.2)))
        λ _. bind_gets (elim [ [] ↦ finish (λ m q. (q.0, q.1)) | e ∷ es ↦ give_up (λ m q. q.0.0) ])

  abbrev Slot : ℤ → String → String → Entities → Type 0
  Slot = WithWriterSlot

  abbrev Cached : ℤ → String → String → Entities → Type 0
  Cached d n t = WithTopic (Slot d n t) d t

  -- The slot has one entry, `x`.
  abbrev Holds : ℤ → String → String → Entry → Entities → Type 0
  Holds d n t x e = WellFormed e × (entries d n t e.writers ≡ x ∷ [])

  stored :
      (d : ℤ) (n t type_name : String) (x : Entry)
      → Triple
          (On (Cached d n t))
          (store_writer rti d n t type_name x)
          (λ _. On (Holds d n t x))
          Fails
  unfolding store_writer
  stored d n t type_name x = change λ m p. (
    store_writer-WellFormed (entities m) p.0.0.0 d n t type_name x p.0.0.2 p.0.1 p.1,
    ground (
      arith,
      entries-set_entries d d n n t t (entries d n t m.writers ++ x ∷ []) m.writers,
      p.0.1,
      ==_refl d,
      ==_refl n,
      ==_refl t,
    ),
  )

  -- The slot has one entry, with the identifier `id`.
  abbrev HoldsId : ℤ → String → String → ℕ → Entities → Type 0
  HoldsId d n t id e =
      WellFormed e × ((h : ℕ) × (entries d n t e.writers ≡ record { id = id; holder = h } ∷ []))

  create_writer-HoldsId :
      (d : ℤ) (n t type_name lib prof : String)
      → Triple
          (On WellFormed)
          (create_writer rti d n t type_name lib prof)
          (λ v. On (HoldsId d n t v.0))
          Fails
  unfolding create_writer
  create_writer-HoldsId d n t type_name lib prof =
      bind (λ _. On WellFormed) (keeps _ (check_type_keeps rti d t type_name) (λ e v. v))
        λ _.
          bind (λ _. On (WithParticipant d)) (require_participant-WellFormed rti d _)
            λ participant.
              bind (λ _. On (WithPublisher d n)) (ensure_publisher-WellFormed rti d n lib prof)
                λ parent.
                  bind (λ _. On (Slot d n t)) (claim_writer_slot-WellFormed d n t)
                    λ _.
                      bind (λ _. On (Cached d n t))
                        (topic_holder-WellFormed rti (Slot d n t) d t type_name participant
                          (λ e p. p.0.0)
                          (λ e p. ((touch_topics-WellFormed e p.0.0 d 0, p.0.1, p.0.2), p.1))
                          (λ e h p. ((add_topic-WellFormed e p.0.0 d h t, p.0.1, p.0.2), p.1)))
                        λ holder.
                          bind (λ _. On (Cached d n t))
                            (keeps (Cached d n t) (apply_topic_qos_keeps rti holder lib prof)
                              (λ e p. p.0.0.0))
                            λ _.
                              bind (λ _. On (Cached d n t))
                                (keeps (Cached d n t) (make_endpoint_keeps rti _ _ lib prof)
                                  (λ e p. p.0.0.0))
                                λ made.
                                  bind (λ _. On (Cached d n t))
                                    (keeps (Cached d n t) (fetch_id_keeps rti) (λ e p. p.0.0.0))
                                    λ id.
                                      bind
                                        (λ _. On (Holds d n t (record { id = id; holder = made })))
                                        (stored d n t type_name (record { id = id; holder = made }))
                                        λ _.
                                          bind
                                            (λ _.
                                              On (Holds d n t (record { id = id; holder = made })))
                                            (keeps (Holds d n t (record { id = id; holder = made }))
                                              (register_writer_event_keeps rti made) (λ e v. v.0))
                                            λ _.
                                              bind
                                                (λ _.
                                                  On (
                                                    Holds d n t
                                                      (record { id = id; holder = made })))
                                                (keeps
                                                  (Holds d n t (record { id = id; holder = made }))
                                                  (publish_counts_keeps rti) (λ e v. v.0))
                                                λ _. finish (λ m v. (v.0, (made, v.1)))

  -- From well-formed maps `create_writer` ends with well-formed maps, whether it creates the writer,
  -- refuses, or is left by an exception of an external call.
  pub create_writer-WellFormed :
      (d : ℤ) (n t type_name lib prof : String)
      → Triple
          (On WellFormed)
          (create_writer rti d n t type_name lib prof)
          (λ _. On WellFormed)
          Fails
  create_writer-WellFormed d n t type_name lib prof =
      weaken (create_writer-HoldsId d n t type_name lib prof) (λ v m q. q.0)

  -- If the maps are well formed and `create_writer` succeeds, then the publisher has exactly one writer
  -- of the topic, the new one, under the identifier that the caller gets.
  pub create_writer-slot :
      (d : ℤ) (n t type_name lib prof : String) (m : Manager World) (v : ℕ × Reason)
      → WellFormed (entities m)
      → (create_writer rti d n t type_name lib prof m).0 ≡ value v
      → (h : ℕ) × (writers_of d n t (create_writer rti d n t type_name lib prof m).1
          ≡ record { id = v.0; holder = h } ∷ [])
  create_writer-slot d n t type_name lib prof m v w ok =
      (succeeds m v (create_writer-HoldsId d n t type_name lib prof) w ok).1
