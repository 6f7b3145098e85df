-- ===== src/Dds/Invariant/Topics.antt =====
-- The cached topic keeps the maps well formed.
use connext_triad.Prelude.{
  ℕ, ℤ, String, none, some, refl, arith, string_eq, int_eq, is_some, ap, touch, lookup2-insert2,
  insert2, ==_refl,
}
use connext_triad.Dds.External.{Rti, gives, fails}
use connext_triad.Dds.Monad.{Triple, bind, bind_gets, change, finish, give_up, strengthen}
use connext_triad.Dds.Create.{topic_holder}
use connext_triad.Dds.Invariant.{Entities, entities, WellFormed}
use connext_triad.Dds.Invariant.Keeps.{On, Fails, keeps}
use connext_triad.Dds.Invariant.Operations.{WithTopic}

module _ (rti : Rti) where
  open rti use {World}

  pub topic_holder-WellFormed :
      (P : Entities → Type 0) (d : ℤ) (t type_name : String) (participant : ℕ)
      → ((e : Entities) → P e → WellFormed e)
      → ((e : Entities) → P e → P (record e { topics = touch d e.topics }))
      → ((e : Entities) (h : ℕ) → P e → P (record e { topics = insert2 d t h e.topics }))
      → Triple (On P) (topic_holder rti d t type_name participant) (λ _. On (WithTopic P d t)) Fails
  unfolding topic_holder
  topic_holder-WellFormed P d t type_name participant w touched added =
      bind (λ _. On P) (change (λ m p. touched (entities m) p))
        λ _. bind_gets (elim [
          | some h ↦ finish (λ m q. (q.0, ap is_some q.1))
          | none ↦
              bind (λ _. On P) (strengthen (keeps P (λ m. refl) w) (λ m q. q.0))
                (elim [
                  | fails what ↦
                      bind (λ _. On P) (give_up (λ m p. w (entities m) p))
                        λ h.
                          bind (λ _. On (WithTopic P d t))
                            (change (λ m p. (
                              added (entities m) h p,
                              ground
                                  (arith, lookup2-insert2 d d t t h m.topics, ==_refl d, ==_refl t),
                            )))
                            λ _. finish (λ m p. p)
                  | gives x ↦
                      bind (λ _. On P) (finish (λ m p. p))
                        λ h.
                          bind (λ _. On (WithTopic P d t))
                            (change (λ m p. (
                              added (entities m) h p,
                              ground
                                  (arith, lookup2-insert2 d d t t h m.topics, ==_refl d, ==_refl t),
                            )))
                            λ _. finish (λ m p. p)
                ])
        ])
