-- ===== src/Dds/Calls/Reachable.antt =====
-- The maps are well formed in every state that calls lead to.
use connext_triad.Prelude.{subst, sym, List, [], ◌∷◌, int_eq, string_eq, arith}
use connext_triad.Dds.External.{Rti}
use connext_triad.Dds.State.{Manager, Counts, EventMode, listener, wait_set, create_manager}
use connext_triad.Dds.Monad.{M, Exit, value, leave, Post, Triple}
use connext_triad.Dds.Events.{set_event_mode, dispatcher_start, dispatcher_stop, detach_all}
use connext_triad.Dds.Cleanup.{clear_entities, clear_maps, set_on_sample}
use connext_triad.Dds.Invariant.{entities, WellFormed, empty-WellFormed}
use connext_triad.Dds.Invariant.Keeps.{On, Fails, KeepsEntities}
use connext_triad.Dds.Invariant.Operations.{
  create_participant-WellFormed, create_publisher-WellFormed, create_subscriber-WellFormed,
}
use connext_triad.Dds.Invariant.Writers.{create_writer-WellFormed}
use connext_triad.Dds.Invariant.Readers.{create_reader-WellFormed}
use connext_triad.Dds.Invariant.Publish.{publish_json_keeps, publish_json_at_keeps}
use connext_triad.Dds.Invariant.Remove.{remove_writer-WellFormed, remove_reader-WellFormed}
use connext_triad.Dds.Samples.{Samples}
use connext_triad.Dds.Calls.{
  Call, participant, publisher, subscriber, writer, reader, publish, publish_at, on_sample, mode,
  clear, drop_writer, drop_reader, after, after_all,
}

module _ (rti : Rti) (samples : Samples rti.World) where
  open rti use {World}

  either_way_WellFormed :
      {A : Type 0} (r : Exit A × Manager World)
      → Post (λ _. On WellFormed) Fails r
      → WellFormed (entities r.1)
  either_way_WellFormed (value a, m) v = v
  either_way_WellFormed (leave o, m) v = v

  run_triple :
      {A : Type 0} {op : M World A} (m : Manager World)
      → WellFormed (entities m)
      → Triple (On WellFormed) op (λ _. On WellFormed) Fails
      → WellFormed (entities (op m).1)
  run_triple {op = op} m v t = either_way_WellFormed (op m) (t.run m v)

  clear_entities-WellFormed : (m : Manager World) → WellFormed (entities (clear_entities m))
  unfolding clear_entities clear_maps dispatcher_start detach_all dispatcher_stop
  clear_entities-WellFormed m = by_mode m.event_mode
    where
      by_mode :
          (e : EventMode)
          → WellFormed (
              entities (elim e as (λ _. Manager World) [
                | listener ↦ clear_maps m
                | wait_set ↦ dispatcher_start (clear_maps (detach_all (dispatcher_stop m)))
              ]))
      by_mode listener = empty-WellFormed
      by_mode wait_set = empty-WellFormed

  set_event_mode_keeps : (e : EventMode) → KeepsEntities {World = World} (set_event_mode e)
  unfolding set_event_mode
  set_event_mode_keeps e m = ground arith

  -- Every call, whatever its outcome, leads from well-formed maps to well-formed maps.
  pub after-WellFormed :
      (c : Call rti samples) (m : Manager World)
      → WellFormed (entities m)
      → WellFormed (entities (after rti samples c m))
  unfolding after set_on_sample
  after-WellFormed (participant d lib prof) m v =
      run_triple m v (create_participant-WellFormed rti d lib prof)
  after-WellFormed (publisher d n lib prof) m v =
      run_triple m v (create_publisher-WellFormed rti d n lib prof)
  after-WellFormed (subscriber d n lib prof) m v =
      run_triple m v (create_subscriber-WellFormed rti d n lib prof)
  after-WellFormed (writer d n t y lib prof) m v =
      run_triple m v (create_writer-WellFormed rti d n t y lib prof)
  after-WellFormed (reader d n t y lib prof) m v =
      run_triple m v (create_reader-WellFormed rti d n t y lib prof)
  after-WellFormed (publish t j) m v = subst WellFormed (sym (publish_json_keeps samples t j m)) v
  after-WellFormed (publish_at d n t j) m v =
      subst WellFormed (sym (publish_json_at_keeps samples d n t j m)) v
  after-WellFormed (on_sample cb) m v = v
  after-WellFormed (mode e) m v = subst WellFormed (sym (set_event_mode_keeps e m)) v
  after-WellFormed clear m v = clear_entities-WellFormed m
  after-WellFormed (drop_writer id) m v = run_triple m v (remove_writer-WellFormed rti id)
  after-WellFormed (drop_reader id) m v = run_triple m v (remove_reader-WellFormed rti id)

  after_all-WellFormed :
      (cs : List (Call rti samples)) (m : Manager World)
      → WellFormed (entities m)
      → WellFormed (entities (after_all rti samples cs m))
  unfolding after_all
  after_all-WellFormed [] m v = v
  after_all-WellFormed (c ∷ cs) m v =
      after_all-WellFormed cs (after rti samples c m) (after-WellFormed c m v)

  -- After any sequence of calls from a new manager, whatever their outcomes and whatever the calls
  -- of the middleware do, the maps of entities are well formed: each entity has its parent, each
  -- writer and reader has a cached topic with a type, and no slot has two entries.
  pub reachable-WellFormed :
      (counts : Counts) (w : World) (cs : List (Call rti samples))
      → WellFormed (entities (after_all rti samples cs (create_manager counts w)))
  unfolding create_manager
  reachable-WellFormed counts w cs =
      after_all-WellFormed cs (create_manager counts w) empty-WellFormed
