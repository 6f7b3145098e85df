-- ===== src/Dds/Invariant/Operations.antt =====
-- Every creation of participants, publishers and subscribers keeps the maps well formed, whether it
-- succeeds, refuses, or is left by an exception of an external call.
use connext_triad.Prelude.{
  ℤ, String, true, none, some, [], ◌≡◌, arith, string_eq, int_eq, is_some, lookup2, ap, entries,
  count, lookup2-insert2, ==_refl,
}
use connext_triad.Dds.External.{Rti}
use connext_triad.Dds.State.{Reason, publish_counts}
use connext_triad.Dds.Monad.{Triple, bind, bind_gets, change, finish, give_up, strengthen}
use connext_triad.Dds.Create.{
  require_participant, create_participant, create_publisher_locked, create_subscriber_locked,
  create_publisher, create_subscriber, ensure_publisher, ensure_subscriber,
}
use connext_triad.Dds.Invariant.{
  Entities, entities, WellFormed, add_participant-WellFormed, touch_publishers-WellFormed,
  touch_subscribers-WellFormed, add_publisher-WellFormed, add_subscriber-WellFormed,
}
use connext_triad.Dds.Invariant.Keeps.{On, Fails, keeps, exit_if_keeps, with_qos_keeps}

abbrev pub WithParticipant : ℤ → Entities → Type 0
WithParticipant d e = WellFormed e × (count d e.participants ≡ true)

abbrev pub WithPublisher : ℤ → String → Entities → Type 0
WithPublisher d p e =
    WellFormed e × (count d e.participants ≡ true) × (is_some (lookup2 d p e.publishers) ≡ true)

abbrev pub WithSubscriber : ℤ → String → Entities → Type 0
WithSubscriber d n e =
    WellFormed e × (count d e.participants ≡ true) × (is_some (lookup2 d n e.subscribers) ≡ true)

abbrev pub WithWriterSlot : ℤ → String → String → Entities → Type 0
WithWriterSlot d p t e = WithPublisher d p e × (entries d p t e.writers ≡ [])

abbrev pub WithReaderSlot : ℤ → String → String → Entities → Type 0
WithReaderSlot d n t e = WithSubscriber d n e × (entries d n t e.readers ≡ [])

abbrev pub WithTopic : (Entities → Type 0) → ℤ → String → Entities → Type 0
WithTopic P d t e = P e × (is_some (lookup2 d t e.topics) ≡ true)

module _ (rti : Rti) where
  open rti use {World}

  pub create_participant-WellFormed :
      (d : ℤ) (lib prof : String)
      → Triple (On WellFormed) (create_participant rti d lib prof) (λ _. On WellFormed) Fails
  unfolding create_participant publish_counts
  create_participant-WellFormed d lib prof = bind_gets λ old.
      strengthen
        (bind (λ _. On WellFormed) (keeps _ (exit_if_keeps _ _) (λ e v. v))
          λ _.
            bind (λ _. On WellFormed) (keeps _ (with_qos_keeps rti _ lib prof) (λ e v. v))
              λ h.
                bind (λ _. On WellFormed)
                  (change (λ m v. add_participant-WellFormed (entities m) v d h))
                  λ _. bind (λ _. On WellFormed) (change (λ m v. v)) λ _. finish (λ m v. v))
        (λ m p. p.0)

  pub require_participant-WellFormed :
      (d : ℤ) (missing : Reason)
      → Triple {World = World}
          (On WellFormed)
          (require_participant d missing)
          (λ _. On (WithParticipant d))
          Fails
  require_participant-WellFormed d missing =
      bind_gets
        (elim [ none ↦ give_up (λ m q. q.0) | some p ↦ finish (λ m q. (q.0, ap is_some q.1)) ])

  pub create_publisher_locked-WellFormed :
      (d : ℤ) (p lib prof : String)
      → Triple
          (On WellFormed)
          (create_publisher_locked rti d p lib prof)
          (λ _. On (WithPublisher d p))
          Fails
  unfolding create_publisher_locked publish_counts
  create_publisher_locked-WellFormed d p lib prof =
      bind (λ _. On (WithParticipant d)) (require_participant-WellFormed d _)
        λ participant.
          bind (λ _. On (WithParticipant d))
            (change (λ m v. (touch_publishers-WellFormed (entities m) v.0 d 0, v.1)))
            λ _. bind_gets λ old.
              strengthen
                (bind (λ _. On (WithParticipant d))
                  (keeps (WithParticipant d) (exit_if_keeps _ _) (λ e v. v.0))
                  λ _.
                    bind (λ _. On (WithParticipant d))
                      (keeps (WithParticipant d) (with_qos_keeps rti _ lib prof) (λ e v. v.0))
                      λ h.
                        bind (λ _. On (WithPublisher d p))
                          (change (λ m v. (
                            add_publisher-WellFormed (entities m) v.0 d h p v.1,
                            v.1,
                            ground (
                              arith,
                              lookup2-insert2 d d p p h m.publishers,
                              ==_refl d,
                              ==_refl p,
                            ),
                          )))
                          λ _.
                            bind (λ _. On (WithPublisher d p)) (change (λ m v. v))
                              λ _. finish (λ m v. v))
                (λ m q. q.0)

  pub create_subscriber_locked-WellFormed :
      (d : ℤ) (n lib prof : String)
      → Triple
          (On WellFormed)
          (create_subscriber_locked rti d n lib prof)
          (λ _. On (WithSubscriber d n))
          Fails
  unfolding create_subscriber_locked publish_counts
  create_subscriber_locked-WellFormed d n lib prof =
      bind (λ _. On (WithParticipant d)) (require_participant-WellFormed d _)
        λ participant.
          bind (λ _. On (WithParticipant d))
            (change (λ m v. (touch_subscribers-WellFormed (entities m) v.0 d 0, v.1)))
            λ _. bind_gets λ old.
              strengthen
                (bind (λ _. On (WithParticipant d))
                  (keeps (WithParticipant d) (exit_if_keeps _ _) (λ e v. v.0))
                  λ _.
                    bind (λ _. On (WithParticipant d))
                      (keeps (WithParticipant d) (with_qos_keeps rti _ lib prof) (λ e v. v.0))
                      λ h.
                        bind (λ _. On (WithSubscriber d n))
                          (change (λ m v. (
                            add_subscriber-WellFormed (entities m) v.0 d h n v.1,
                            v.1,
                            ground (
                              arith,
                              lookup2-insert2 d d n n h m.subscribers,
                              ==_refl d,
                              ==_refl n,
                            ),
                          )))
                          λ _.
                            bind (λ _. On (WithSubscriber d n)) (change (λ m v. v))
                              λ _. finish (λ m v. v))
                (λ m q. q.0)

  pub create_publisher-WellFormed :
      (d : ℤ) (p lib prof : String)
      → Triple (On WellFormed) (create_publisher rti d p lib prof) (λ _. On WellFormed) Fails
  unfolding create_publisher
  create_publisher-WellFormed d p lib prof =
      bind (λ _. On (WithPublisher d p)) (create_publisher_locked-WellFormed d p lib prof)
        λ h. finish (λ m v. v.0)

  pub create_subscriber-WellFormed :
      (d : ℤ) (n lib prof : String)
      → Triple (On WellFormed) (create_subscriber rti d n lib prof) (λ _. On WellFormed) Fails
  unfolding create_subscriber
  create_subscriber-WellFormed d n lib prof =
      bind (λ _. On (WithSubscriber d n)) (create_subscriber_locked-WellFormed d n lib prof)
        λ h. finish (λ m v. v.0)

  pub ensure_publisher-WellFormed :
      (d : ℤ) (p lib prof : String)
      → Triple
          (On (WithParticipant d))
          (ensure_publisher rti d p lib prof)
          (λ _. On (WithPublisher d p))
          Fails
  unfolding ensure_publisher
  ensure_publisher-WellFormed d p lib prof =
      bind (λ _. On (WithParticipant d))
        (change (λ m v. (touch_publishers-WellFormed (entities m) v.0 d 0, v.1)))
        λ _. bind_gets (elim [
          | none ↦ strengthen (create_publisher_locked-WellFormed d p lib prof) (λ m q. q.0.0)
          | some h ↦ finish (λ m q. (q.0.0, q.0.1, ap is_some q.1))
        ])

  pub ensure_subscriber-WellFormed :
      (d : ℤ) (n lib prof : String)
      → Triple
          (On (WithParticipant d))
          (ensure_subscriber rti d n lib prof)
          (λ _. On (WithSubscriber d n))
          Fails
  unfolding ensure_subscriber
  ensure_subscriber-WellFormed d n lib prof =
      bind (λ _. On (WithParticipant d))
        (change (λ m v. (touch_subscribers-WellFormed (entities m) v.0 d 0, v.1)))
        λ _. bind_gets (elim [
          | none ↦ strengthen (create_subscriber_locked-WellFormed d n lib prof) (λ m q. q.0.0)
          | some h ↦ finish (λ m q. (q.0.0, q.0.1, ap is_some q.1))
        ])
