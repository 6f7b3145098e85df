-- ===== src/Dds/Results/Counts.antt =====
-- A successful creation hands the current entity counts to `StatsManager`.
use connext_triad.Prelude.{ℕ, ℤ, String, ◌≡◌, refl}
use connext_triad.Dds.External.{Rti}
use connext_triad.Dds.State.{Manager, Reason, entity_counts, publish_counts}
use connext_triad.Dds.Monad.{value, Triple, bind, change, finish, modify}
use connext_triad.Dds.Create.{
  create_participant, create_publisher_locked, create_subscriber_locked, create_publisher,
  create_subscriber, create_writer, create_reader,
}
use connext_triad.Dds.Results.{Anything, AnyEnd, anyhow, succeeded}

module _ {World : Type 0} where
  abbrev Fresh : Manager World → Type 0
  Fresh m = m.stats ≡ entity_counts m

  published : Triple Anything (modify publish_counts) (λ _. Fresh) AnyEnd
  unfolding publish_counts entity_counts
  published = change (λ m p. refl)

module _ (rti : Rti) where
  open rti use {World}

  create_participant-Fresh :
      (d : ℤ) (lib prof : String)
      → Triple Anything (create_participant rti d lib prof) (λ _. Fresh) AnyEnd
  unfolding create_participant
  create_participant-Fresh d lib prof =
      bind (λ _. Anything) (anyhow _ _)
        λ old.
          bind (λ _. Anything) (anyhow _ _)
            λ _.
              bind (λ _. Anything) (anyhow _ _)
                λ h.
                  bind (λ _. Anything) (anyhow _ _)
                    λ _. bind (λ _. Fresh) published λ _. finish (λ m p. p)

  create_publisher_locked-Fresh :
      (d : ℤ) (n lib prof : String)
      → Triple Anything (create_publisher_locked rti d n lib prof) (λ _. Fresh) AnyEnd
  unfolding create_publisher_locked
  create_publisher_locked-Fresh d n lib prof =
      bind (λ _. Anything) (anyhow _ _)
        λ participant.
          bind (λ _. Anything) (anyhow _ _)
            λ _.
              bind (λ _. Anything) (anyhow _ _)
                λ old.
                  bind (λ _. Anything) (anyhow _ _)
                    λ _.
                      bind (λ _. Anything) (anyhow _ _)
                        λ h.
                          bind (λ _. Anything) (anyhow _ _)
                            λ _. bind (λ _. Fresh) published λ _. finish (λ m p. p)

  create_publisher-Fresh :
      (d : ℤ) (n lib prof : String)
      → Triple Anything (create_publisher rti d n lib prof) (λ _. Fresh) AnyEnd
  unfolding create_publisher
  create_publisher-Fresh d n lib prof =
      bind (λ _. Fresh) (create_publisher_locked-Fresh d n lib prof) λ h. finish (λ m p. p)

  create_subscriber_locked-Fresh :
      (d : ℤ) (n lib prof : String)
      → Triple Anything (create_subscriber_locked rti d n lib prof) (λ _. Fresh) AnyEnd
  unfolding create_subscriber_locked
  create_subscriber_locked-Fresh d n lib prof =
      bind (λ _. Anything) (anyhow _ _)
        λ participant.
          bind (λ _. Anything) (anyhow _ _)
            λ _.
              bind (λ _. Anything) (anyhow _ _)
                λ old.
                  bind (λ _. Anything) (anyhow _ _)
                    λ _.
                      bind (λ _. Anything) (anyhow _ _)
                        λ h.
                          bind (λ _. Anything) (anyhow _ _)
                            λ _. bind (λ _. Fresh) published λ _. finish (λ m p. p)

  create_subscriber-Fresh :
      (d : ℤ) (n lib prof : String)
      → Triple Anything (create_subscriber rti d n lib prof) (λ _. Fresh) AnyEnd
  unfolding create_subscriber
  create_subscriber-Fresh d n lib prof =
      bind (λ _. Fresh) (create_subscriber_locked-Fresh d n lib prof) λ h. finish (λ m p. p)

  create_writer-Fresh :
      (d : ℤ) (n topic t lib prof : String)
      → Triple Anything (create_writer rti d n topic t lib prof) (λ _. Fresh) AnyEnd
  unfolding create_writer
  create_writer-Fresh d n topic t lib prof =
      bind (λ _. Anything) (anyhow _ _)
        λ _.
          bind (λ _. Anything) (anyhow _ _)
            λ participant.
              bind (λ _. Anything) (anyhow _ _)
                λ parent.
                  bind (λ _. Anything) (anyhow _ _)
                    λ _.
                      bind (λ _. Anything) (anyhow _ _)
                        λ holder.
                          bind (λ _. Anything) (anyhow _ _)
                            λ _.
                              bind (λ _. Anything) (anyhow _ _)
                                λ made.
                                  bind (λ _. Anything) (anyhow _ _)
                                    λ id.
                                      bind (λ _. Anything) (anyhow _ _)
                                        λ _.
                                          bind (λ _. Anything) (anyhow _ _)
                                            λ _. bind (λ _. Fresh) published λ _. finish (λ m p. p)

  create_reader-Fresh :
      (d : ℤ) (n topic t lib prof : String)
      → Triple Anything (create_reader rti d n topic t lib prof) (λ _. Fresh) AnyEnd
  unfolding create_reader
  create_reader-Fresh d n topic t lib prof =
      bind (λ _. Anything) (anyhow _ _)
        λ _.
          bind (λ _. Anything) (anyhow _ _)
            λ participant.
              bind (λ _. Anything) (anyhow _ _)
                λ parent.
                  bind (λ _. Anything) (anyhow _ _)
                    λ _.
                      bind (λ _. Anything) (anyhow _ _)
                        λ holder.
                          bind (λ _. Anything) (anyhow _ _)
                            λ _.
                              bind (λ _. Anything) (anyhow _ _)
                                λ made.
                                  bind (λ _. Anything) (anyhow _ _)
                                    λ id.
                                      bind (λ _. Anything) (anyhow _ _)
                                        λ _.
                                          bind (λ _. Anything) (anyhow _ _)
                                            λ _.
                                              bind (λ _. Anything) (anyhow _ _)
                                                λ _.
                                                  bind (λ _. Fresh) published λ _. finish (λ m p. p)

  -- When `create_participant` succeeds, the counts that `StatsManager` has are those of the entities that
  -- the manager has then.
  pub create_participant-stats :
      (d : ℤ) (lib prof : String) (m : Manager World) (r : Reason)
      → (create_participant rti d lib prof m).0 ≡ value r
      → (create_participant rti d lib prof m).1.stats
        ≡ entity_counts (create_participant rti d lib prof m).1
  create_participant-stats d lib prof m r = succeeded m r (create_participant-Fresh d lib prof)

  -- When `create_publisher` succeeds, the counts that `StatsManager` has are those of the entities that
  -- the manager has then.
  pub create_publisher-stats :
      (d : ℤ) (n lib prof : String) (m : Manager World) (r : Reason)
      → (create_publisher rti d n lib prof m).0 ≡ value r
      → (create_publisher rti d n lib prof m).1.stats
        ≡ entity_counts (create_publisher rti d n lib prof m).1
  create_publisher-stats d n lib prof m r = succeeded m r (create_publisher-Fresh d n lib prof)

  -- When `create_subscriber` succeeds, the counts that `StatsManager` has are those of the entities that
  -- the manager has then.
  pub create_subscriber-stats :
      (d : ℤ) (n lib prof : String) (m : Manager World) (r : Reason)
      → (create_subscriber rti d n lib prof m).0 ≡ value r
      → (create_subscriber rti d n lib prof m).1.stats
        ≡ entity_counts (create_subscriber rti d n lib prof m).1
  create_subscriber-stats d n lib prof m r = succeeded m r (create_subscriber-Fresh d n lib prof)

  -- When `create_writer` succeeds, the counts that `StatsManager` has are those of the entities that
  -- the manager has then.
  pub create_writer-stats :
      (d : ℤ) (n topic t lib prof : String) (m : Manager World) (v : ℕ × Reason)
      → (create_writer rti d n topic t lib prof m).0 ≡ value v
      → (create_writer rti d n topic t lib prof m).1.stats
        ≡ entity_counts (create_writer rti d n topic t lib prof m).1
  create_writer-stats d n topic t lib prof m v =
      succeeded m v (create_writer-Fresh d n topic t lib prof)

  -- When `create_reader` succeeds, the counts that `StatsManager` has are those of the entities that
  -- the manager has then.
  pub create_reader-stats :
      (d : ℤ) (n topic t lib prof : String) (m : Manager World) (v : ℕ × Reason)
      → (create_reader rti d n topic t lib prof m).0 ≡ value v
      → (create_reader rti d n topic t lib prof m).1.stats
        ≡ entity_counts (create_reader rti d n topic t lib prof m).1
  create_reader-stats d n topic t lib prof m v =
      succeeded m v (create_reader-Fresh d n topic t lib prof)
