-- ===== src/Dds/Dispatch.antt =====
-- The two threads of RtpDdsGateway/src/async/waitset_dispatcher.cpp: what one turn of
-- `monitor_thread_loop` and of `data_thread_loop` does, and the loops over the turns. Each table is
-- read under its mutex, so a turn works on the table of one moment.
pub mod Turns
mod Tests
use connext_triad.Prelude.{
  ℕ, String, Bool, true, false, List, [], ◌∷◌, any, ◌==◌, nat_eq, if◌then◌else◌,
}
use connext_triad.Dds.External.{Done, done, raised}
use connext_triad.Dds.State.{Manager}
use connext_triad.Holders.Data.{Mask}

-- A condition of a wait set: the guard of the dispatcher or the one of a handler.
pub data Condition : Type 0 where
  guard : Condition
  of : ℕ → Condition

-- What `wait` with its timeout of one second gives.
pub data Waited : Type 0 where
  active : List Condition → Waited
  timeout : Waited
  failed : String → Waited

pub data Changes : Type 0 where
  changed : Mask → Changes
  unknown : String → Changes

-- The calls of one thread. A guard is reset by `trigger_value(false)`.
pub record Waiting (World : Type 0) : Type 0 where
  pub wait : World → Waited × World
  pub reset_guard : World → World
  pub status_changes : ℕ → World → Changes × World
  pub process_status : ℕ → Mask → World → Done × World
  pub process_data : ℕ → World → Done × World

module _ {World : Type 0} (waiting : Waiting World) where
  open waiting use {wait, reset_guard, status_changes, process_status, process_data}

  -- What the monitor thread does with a handler that it finds.
  unfoldable pub handle_status : ℕ → World → Done × World
  handle_status h w =
      let (changes, w') = status_changes h w in
      elim changes [ changed mask ↦ process_status h mask w' | unknown what ↦ (raised what, w') ]

  -- The loop over the active conditions, which an exception leaves.
  unfoldable pub dispatch :
      (ℕ → World → Done × World) → List ℕ → List Condition → World → Done × World
  dispatch handle table [] w = (done, w)
  dispatch handle table (guard ∷ conditions) w = dispatch handle table conditions (reset_guard w)
  dispatch handle table (of h ∷ conditions) w = elim (any (λ k. k == h) table) [
    | false ↦ dispatch handle table conditions w
    | true ↦
        let (r, w') = handle h w in
        elim r [ done ↦ dispatch handle table conditions w' | raised what ↦ (raised what, w') ]
  ]

  -- One turn of a loop, once `running_` has been read after the wait. Exceptions are logged.
  unfoldable pub turn : (ℕ → World → Done × World) → List ℕ → Bool → World → World
  turn handle table running w =
      let (waited, w') = wait w in
      elim waited [
        | timeout ↦ w'
        | failed what ↦ w'
        | active conditions ↦ if running then (dispatch handle table conditions w').1 else w'
      ]

  unfoldable pub monitor_turn : Manager World → Bool → World → World
  unfolding handle_status turn
  monitor_turn m running w = turn handle_status m.monitored running w

  unfoldable pub data_turn : Manager World → Bool → World → World
  unfolding turn
  data_turn m running w = turn process_data m.polled running w
