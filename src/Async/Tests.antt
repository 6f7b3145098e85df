-- ===== src/Async/Tests.antt =====
-- The processor on concrete configurations and jobs.
use connext_triad.Prelude.{
  ℕ, ◌<◌, ◌-◌, ◌^◌, ◌≡◌, refl, List, [], ◌∷◌, ◌++◌, none, some, true, false, arith,
}
use connext_triad.Async.{
  Config, Handlers, Job, command, waiting, ended, Processor, u64, create, start, count_post,
  enqueue, is_full, loop, get_stats, report_error,
}
use connext_triad.Async.Steps.{
  System, Event, quiet, accepted, count, enqueues, starts, initial, Reach, here, next, Inv,
}
use connext_triad.Async.Order.{accepted_jobs, begun_jobs, begun-queue-accepted}
use connext_triad.Async.Drain.{execute_all, loop_drains}
use connext_triad.Async.Ledger.{Ledger, any_job, Reach-accounted}
use connext_triad.Async.Monitor.{Fits, AddUp, no_stats, monitor_loop, monitor_loop-sums}

abbrev draining : Config
draining = record { max_queue = 2; monitor_sec = 10; drain_stop = true; exec_warn_us = 1000 }

abbrev job : Job
job = command (record { corr_id = 7; route = "ipc"; remote = ""; body = 1 ∷ []; is_cbor = true })

abbrev quiet_handlers : Handlers
quiet_handlers = record { sample = none; command = some (λ ev. none); error = none }

abbrev started : System
started = record { processor = start (create draining); pending = [] }

abbrev counted : System
counted = record { processor = count_post job (start (create draining)); pending = job ∷ [] }

abbrev queued : System
queued = record {
  processor = (enqueue job (count_post job (start (create draining)))).0;
  pending = [];
}

abbrev queued_events : List Event
queued_events = quiet ∷ Event.counted job ∷ accepted job ∷ []

queued_is_reached : Reach draining queued queued_events
unfolding create start count_post enqueue is_full
queued_is_reached =
    next {s = counted}
      (next {s = started} (next {s = initial draining} here (starts (initial draining) refl))
        (count started job))
      (enqueues counted job [] [] refl)

Reach-accounted_example : Inv draining queued × Ledger any_job queued_events queued
Reach-accounted_example = Reach-accounted any_job draining queued queued_events queued_is_reached

begun-queue-accepted_example :
    accepted_jobs queued_events ≡ begun_jobs queued_events ++ queued.processor.q
begun-queue-accepted_example =
    begun-queue-accepted draining queued queued_events queued_is_reached refl

abbrev stopped : Processor
stopped = record {
  cfg = draining;
  handlers = quiet_handlers;
  q = job ∷ job ∷ [];
  running = false;
  worker = waiting;
  max_depth = 2;
  enq_sample = 0;
  enq_cmd = 2;
  enq_err = 0;
  exec = 0;
  dropped = 0;
}

loop_drains_example :
    (p' : Processor) × (loop 3 stopped ≡ some (p', execute_all quiet_handlers (job ∷ job ∷ [])))
    × (p'.q ≡ [])
    × (p'.worker ≡ ended)
    × (u64 p'.exec ≡ 2)
    × (p'.dropped ≡ 0)
unfolding report_error
loop_drains_example = loop_drains 3 stopped (λ what. λ location. refl) refl refl refl (omega arith)

-- The counter of commands wraps between two rounds.
abbrev seen : Processor
seen = record stopped { enq_cmd = 2 ^ 64 - 3 }

abbrev within : (n : ℕ) → n < 2 ^ 64 → Fits (get_stats (record stopped { enq_cmd = n }))
unfolding get_stats
within n h = record {
  sample = omega arith;
  cmd = h;
  err = omega arith;
  exec = omega arith;
  drop = omega arith;
}

monitor_loop-sums_example :
    AddUp (monitor_loop (seen ∷ stopped ∷ []) no_stats).0 no_stats (get_stats stopped)
monitor_loop-sums_example =
    monitor_loop-sums (seen ∷ []) stopped (within (2 ^ 64 - 3) (omega arith), tt)
      (within 2 (omega arith))
