-- ===== src/Dds/Dispatch/Turns.antt =====
-- Which handlers a turn calls.
use connext_triad.Prelude.{ℕ, Bool, List, [], ◌∷◌, nat_eq, if◌then◌else◌, ◌≡◌, refl, arith}
use connext_triad.Dds.External.{Done, done}
use connext_triad.Dds.State.{Manager, wait_set}
use connext_triad.Dds.Events.{detach_all, dispatcher_stop, dispatcher_start}
use connext_triad.Dds.Cleanup.{clear_entities, clear_maps}
use connext_triad.Dds.Dispatch.{
  Condition, guard, of, Waited, active, timeout, failed, Waiting, handle_status, dispatch, turn,
  monitor_turn, data_turn,
}

module _ {World : Type 0} (waiting : Waiting World) where
  open waiting use {wait, reset_guard, process_data}

  -- The guards alone.
  abbrev pub reset_guards : List Condition → World → World
  reset_guards [] w = w
  reset_guards (guard ∷ conditions) w = reset_guards conditions (reset_guard w)
  reset_guards (of h ∷ conditions) w = reset_guards conditions w

  -- A wait, and the guards that it gave.
  abbrev pub quiet_turn : Bool → World → World
  quiet_turn running w = elim (wait w).0 [
    | timeout ↦ (wait w).1
    | failed what ↦ (wait w).1
    | active conditions ↦ if running then reset_guards conditions (wait w).1 else (wait w).1
  ]

  dispatch-nil :
      (handle : ℕ → World → Done × World) (conditions : List Condition) (w : World)
      → dispatch waiting handle [] conditions w ≡ (done, reset_guards conditions w)
  unfolding dispatch
  dispatch-nil handle [] w = refl
  dispatch-nil handle (guard ∷ conditions) w = dispatch-nil handle conditions (reset_guard w)
  dispatch-nil handle (of h ∷ conditions) w = dispatch-nil handle conditions w

  turn-nil :
      (handle : ℕ → World → Done × World) (running : Bool) (w : World)
      → turn waiting handle [] running w ≡ quiet_turn running w
  unfolding turn
  turn-nil handle running w = by_waited (wait w).0
    where
      by_waited :
          (waited : Waited)
          → elim waited [
            | timeout ↦ (wait w).1
            | failed what ↦ (wait w).1
            | active conditions ↦
                if running then (dispatch waiting handle [] conditions (wait w).1).1 else (wait w).1
          ]
            ≡ elim waited [
              | timeout ↦ (wait w).1
              | failed what ↦ (wait w).1
              | active conditions ↦
                  if running then reset_guards conditions (wait w).1 else (wait w).1
            ]
      by_waited timeout = refl
      by_waited (failed what) = refl
      by_waited (active conditions) = rw (dispatch-nil handle conditions (wait w).1)

  tables-nil :
      (m : Manager World)
      → m.event_mode ≡ wait_set
      → ((clear_entities m).monitored ≡ []) × ((clear_entities m).polled ≡ [])
  unfolding clear_entities clear_maps dispatcher_start detach_all dispatcher_stop
  tables-nil m mode = ground (arith, mode)

  -- In wait-set mode, after clear_entities has destroyed the holders, a turn of either thread calls
  -- no handler, whatever conditions its wait gives: it only waits and resets guards.
  pub clear_entities-turns :
      (m : Manager World) (running : Bool) (w : World)
      → m.event_mode ≡ wait_set
      → (monitor_turn waiting (clear_entities m) running w ≡ quiet_turn running w)
        × (data_turn waiting (clear_entities m) running w ≡ quiet_turn running w)
  unfolding monitor_turn data_turn
  clear_entities-turns m running w mode = (
    rw (tables-nil m mode).0 (turn-nil (handle_status waiting) running w),
    rw (tables-nil m mode).1 (turn-nil process_data running w),
  )
