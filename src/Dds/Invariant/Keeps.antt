-- ===== src/Dds/Invariant/Keeps.antt =====
-- Assertions on the entities of the manager, and the parts of its operations that leave the
-- entities alone.
use connext_triad.Prelude.{
  ℕ, ℤ, String, true, false, Bool, Option, ◌≡◌, refl, arith, string_eq, int_eq, sym, subst,
}
use connext_triad.Dds.External.{Rti, Attempt}
use connext_triad.Dds.State.{Manager, Reason, Outcome, publish_counts}
use connext_triad.Dds.Monad.{M, Exit, value, leave, ◌>>=◌, Post, Triple, modify, exit_if}
use connext_triad.Dds.Events.{
  register_reader_event, register_writer_event, enable_listener, attach_monitor, attach_data,
}
use connext_triad.Dds.Create.{
  with_qos, check_type, make_endpoint, fetch_id, apply_topic_qos, apply_topic_qos_unguarded,
  give_callback,
}
use connext_triad.Dds.Invariant.{Entities, entities, WellFormed}

module _ {World : Type 0} where
  abbrev pub On : (Entities → Type 0) → Manager World → Type 0
  On P m = P (entities m)

  abbrev pub Fails : Outcome → Manager World → Type 0
  Fails o m = WellFormed (entities m)

  abbrev pub KeepsEntities : {A : Type 0} → M World A → Type 0
  KeepsEntities op = (m : Manager World) → entities (op m).1 ≡ entities m

  Post-keeps :
      {A : Type 0} (P : Entities → Type 0) (m : Manager World) (r : Exit A × Manager World)
      → entities r.1 ≡ entities m
      → ((e : Entities) → P e → WellFormed e)
      → P (entities m)
      → Post (λ _. On P) Fails r
  Post-keeps P m (value a, m') k w p = subst P (sym k) p
  Post-keeps P m (leave o, m') k w p = subst WellFormed (sym k) (w (entities m) p)

  -- What holds of the entities still holds after an operation that does not touch them.
  pub keeps :
      {A : Type 0} {op : M World A} (P : Entities → Type 0)
      → KeepsEntities op
      → ((e : Entities) → P e → WellFormed e)
      → Triple (On P) op (λ _. On P) Fails
  keeps {op = op} P k w = record { run = λ m p. Post-keeps P m (op m) (k m) w p }

  pub exit_if_keeps : (b : Bool) (o : Outcome) → KeepsEntities (exit_if b o)
  exit_if_keeps true o m = refl
  exit_if_keeps false o m = refl

module _ (rti : Rti) where
  open rti use {World, Qos, find_or_reload}

  pub with_qos_keeps :
      (make : Option Qos → World → Attempt × World) (lib prof : String)
      → KeepsEntities (with_qos rti make lib prof)
  unfolding ◌>>=◌ with_qos
  with_qos_keeps make lib prof m = ground arith

  pub make_endpoint_keeps :
      (make : Option Qos → World → Attempt × World) (failed : String → Reason) (lib prof : String)
      → KeepsEntities (make_endpoint rti make failed lib prof)
  unfolding ◌>>=◌ make_endpoint
  make_endpoint_keeps make failed lib prof m = ground arith

  pub apply_topic_qos_keeps :
      (h : ℕ) (lib prof : String) → KeepsEntities (apply_topic_qos rti h lib prof)
  unfolding ◌>>=◌ apply_topic_qos
  apply_topic_qos_keeps h lib prof m = ground arith

  pub apply_topic_qos_unguarded_keeps :
      (h : ℕ) (lib prof : String) → KeepsEntities (apply_topic_qos_unguarded rti h lib prof)
  unfolding ◌>>=◌ apply_topic_qos_unguarded
  apply_topic_qos_unguarded_keeps h lib prof m = ground arith

  pub fetch_id_keeps : KeepsEntities (fetch_id rti)
  unfolding ◌>>=◌ fetch_id
  fetch_id_keeps m = refl

  pub give_callback_keeps : (h : ℕ) → KeepsEntities (give_callback rti h)
  unfolding ◌>>=◌ give_callback
  give_callback_keeps h m = ground arith

  pub register_writer_event_keeps : (h : ℕ) → KeepsEntities (register_writer_event rti h)
  unfolding ◌>>=◌ register_writer_event enable_listener attach_monitor
  register_writer_event_keeps h m = ground arith

  pub register_reader_event_keeps : (h : ℕ) → KeepsEntities (register_reader_event rti h)
  unfolding ◌>>=◌ register_reader_event enable_listener attach_monitor attach_data
  register_reader_event_keeps h m = ground arith

  pub publish_counts_keeps : KeepsEntities (modify (publish_counts {World = World}))
  unfolding publish_counts
  publish_counts_keeps m = refl

  pub check_type_keeps : (d : ℤ) (t y : String) → KeepsEntities (check_type rti d t y)
  unfolding ◌>>=◌ check_type
  check_type_keeps d t y m = ground arith
