-- ===== src/Dds/Dispatch/Tests.antt =====
-- The two threads with a world that counts the calls of handlers.
use connext_triad.Prelude.{ℕ, ◌+◌, true, [], ◌∷◌, ◌≡◌, refl, nat_eq}
use connext_triad.Dds.External.{done}
use connext_triad.Dds.State.{Manager, wait_set, create_manager}
use connext_triad.Dds.Cleanup.{clear_entities}
use connext_triad.Dds.Dispatch.{
  guard, of, Waiting, active, changed, dispatch, monitor_turn, data_turn,
}
use connext_triad.Dds.Dispatch.Turns.{quiet_turn, clear_entities-turns}

-- Handlers 7 and 8 are active in every turn.
abbrev busy : Waiting ℕ
busy = record {
  wait = λ w. (active (guard ∷ of 7 ∷ of 8 ∷ []), w);
  reset_guard = λ w. w;
  status_changes = λ h w. (changed (λ s. true), w);
  process_status = λ h mask w. (done, w + 1);
  process_data = λ h w. (done, w + 1);
}

abbrev attached : Manager ℕ
attached =
    record (create_manager
      (record {
        participants = 0;
        publishers = 0;
        subscribers = 0;
        writers = 0;
        readers = 0;
        topics = 0;
      })
      0) { event_mode = wait_set; monitored = 7 ∷ []; polled = 7 ∷ 8 ∷ [] }

one_status : monitor_turn busy attached true 0 ≡ 1
unfolding monitor_turn dispatch create_manager
one_status = refl

two_batches : data_turn busy attached true 0 ≡ 2
unfolding data_turn dispatch create_manager
two_batches = refl

clear_entities-turns_example :
    (monitor_turn busy (clear_entities attached) true 0 ≡ quiet_turn busy true 0)
    × (data_turn busy (clear_entities attached) true 0 ≡ quiet_turn busy true 0)
clear_entities-turns_example = clear_entities-turns busy attached true 0 is_wait_set
  where
    is_wait_set : attached.event_mode ≡ wait_set
    is_wait_set = refl
