-- ===== src/Async/Drain.antt =====
-- The worker after `stop`, with no thread posting any more.
use connext_triad.Prelude.{
  String, Option, none, ℕ, zero, suc, ◌+◌, ◌<◌, ◌≡◌, refl, List, [], ◌∷◌, ◌++◌, some, true, false,
  arith, length,
}
use connext_triad.Async.{
  Handlers, Job, waiting, busy, ended, Processor, Call, u64, loop, execute, report_error,
  finish_job, call_handler, stop,
}

-- The handler calls of executing jobs one after another.
abbrev pub execute_all : Handlers → List Job → List Call
execute_all hs [] = []
execute_all hs (job ∷ jobs) = (execute hs job).0 ++ execute_all hs jobs

-- The counter of executed jobs after some more jobs.
abbrev pub add_exec : ℕ → List Job → ℕ
add_exec n [] = n
add_exec n (job ∷ jobs) = add_exec (u64 (n + 1)) jobs

-- No exception comes out of the handler of errors.
abbrev pub Reports : Handlers → Type 0
Reports hs = (what location : String) → (report_error hs what location).1 ≡ none

execute-none : (hs : Handlers) (job : Job) → Reports hs → (execute hs job).1 ≡ none
unfolding execute
execute-none hs job k = by_result (call_handler hs job)
  where
    by_result :
        (r : List Call × Option String)
        → (elim r.1 as (λ _. List Call × Option String) [
          | none ↦ (r.0, none)
          | some what ↦
              let (reported, again) = report_error hs what "AsyncEventProcessor::loop" in
              (r.0 ++ reported, again)
        ]).1
          ≡ none
    by_result (calls, none) = refl
    by_result (calls, some what) = k what "AsyncEventProcessor::loop"

pub finish_job-Reports :
    (job : Job) (p : Processor)
    → Reports p.handlers
    → finish_job job p
      ≡ (record p { exec = u64 (p.exec + 1); worker = waiting }, (execute p.handlers job).0)
unfolding finish_job
finish_job-Reports job p k = ground (arith, execute-none p.handlers job k)

u64-add_exec : (n : ℕ) (jobs : List Job) → u64 (add_exec n jobs) ≡ u64 (n + length jobs)
u64-add_exec n [] = omega arith
u64-add_exec n (job ∷ jobs) = omega (arith, u64-add_exec (u64 (n + 1)) jobs)

abbrev stopped_with : Processor → List Job → ℕ → Processor
stopped_with p jobs n = record p { q = jobs; worker = waiting; running = false; exec = n }

abbrev pub drained_with : Processor → ℕ → Processor
drained_with p n = record p { q = []; worker = ended; running = false; exec = n }

loop-stopped_with :
    (jobs : List Job) (fuel : ℕ) (p : Processor) (n : ℕ)
    → Reports p.handlers
    → p.cfg.drain_stop ≡ true
    → length jobs < fuel
    → loop fuel (stopped_with p jobs n)
      ≡ some (drained_with p (add_exec n jobs), execute_all p.handlers jobs)
unfolding loop
loop-stopped_with jobs zero p n k d f = absurd (omega arith)
loop-stopped_with [] (suc fuel) p n k d f = refl
loop-stopped_with (job ∷ jobs) (suc fuel) p n k d f = ground (
  arith,
  finish_job-Reports job (record (stopped_with p jobs n) { worker = busy job }) k,
  loop-stopped_with jobs fuel p (u64 (n + 1)) k d (omega arith),
)

-- A processor that drains is stopped while its worker waits.
pub loop-stop :
    (p : Processor)
    → Reports p.handlers
    → p.worker ≡ waiting
    → p.cfg.drain_stop ≡ true
    → loop (suc (length p.q)) (stop p)
      ≡ some (drained_with p (add_exec p.exec p.q), execute_all p.handlers p.q)
unfolding stop
loop-stop p k w d =
    ground (arith, w, loop-stopped_with p.q (suc (length p.q)) p p.exec k d (omega arith))

-- If a processor that drains has been stopped, its worker is waiting, no exception comes out of the
-- handler of errors and the fuel is above the length of the queue, then the worker executes every queued job, in order, counts each one
-- (modulo 2^64), drops none and leaves its loop with the queue empty.
pub loop_drains :
    (fuel : ℕ) (p : Processor)
    → Reports p.handlers
    → p.worker ≡ waiting
    → p.running ≡ false
    → p.cfg.drain_stop ≡ true
    → length p.q < fuel
    → (p' : Processor) × (loop fuel p ≡ some (p', execute_all p.handlers p.q))
      × (p'.q ≡ [])
      × (p'.worker ≡ ended)
      × (u64 p'.exec ≡ u64 (p.exec + length p.q))
      × (p'.dropped ≡ p.dropped)
loop_drains fuel p k w r d f = (
  drained_with p (add_exec p.exec p.q),
  ground (arith, loop-stopped_with p.q fuel p p.exec k d f),
  refl,
  refl,
  u64-add_exec p.exec p.q,
  refl,
)
