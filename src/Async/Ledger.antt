-- ===== src/Async/Ledger.antt =====
-- What has become of each posted job, over any interleaving.
use connext_triad.Prelude.{
  ℕ, ◌+◌, ◌≡◌, refl, ap, Bool, true, false, List, [], ◌∷◌, ◌++◌, arith, length,
}
use connext_triad.Async.{
  Config, Job, sample, command, error, u64, create, count_post, enqueue, take_job, finish_job,
  start, stop, set_handlers,
}
use connext_triad.Async.Steps.{
  System, initial, Event, counted, accepted, rejected, begun, discarded, quiet, Step, count,
  enqueues, takes, finishes, starts, stops, installs, Reach, here, next, Inv, Reach-Inv, in_hand,
}

abbrev one : Bool → ℕ
one true = 1
one false = 0

-- How many of the jobs pass a test.
abbrev pub tally : (Job → Bool) → List Job → ℕ
tally test [] = 0
tally test (job ∷ jobs) = one (test job) + tally test jobs

abbrev pub total : (Event → ℕ) → List Event → ℕ
total f [] = 0
total f (e ∷ es) = f e + total f es

abbrev pub n_counted : (Job → Bool) → Event → ℕ
n_counted test (counted job) = one (test job)
n_counted test (accepted job) = 0
n_counted test (rejected job) = 0
n_counted test (begun job) = 0
n_counted test (discarded jobs) = 0
n_counted test quiet = 0

abbrev pub n_rejected : (Job → Bool) → Event → ℕ
n_rejected test (counted job) = 0
n_rejected test (accepted job) = 0
n_rejected test (rejected job) = one (test job)
n_rejected test (begun job) = 0
n_rejected test (discarded jobs) = 0
n_rejected test quiet = 0

abbrev pub n_begun : (Job → Bool) → Event → ℕ
n_begun test (counted job) = 0
n_begun test (accepted job) = 0
n_begun test (rejected job) = 0
n_begun test (begun job) = one (test job)
n_begun test (discarded jobs) = 0
n_begun test quiet = 0

abbrev pub n_discarded : (Job → Bool) → Event → ℕ
n_discarded test (counted job) = 0
n_discarded test (accepted job) = 0
n_discarded test (rejected job) = 0
n_discarded test (begun job) = 0
n_discarded test (discarded jobs) = tally test jobs
n_discarded test quiet = 0

abbrev pub any_job : Job → Bool
any_job job = true

-- The jobs that pass a test, each of them counted where it is, and the two counters.
pub record Ledger (test : Job → Bool) (es : List Event) (s : System) : Type 0 where
  pub jobs :
      total (n_counted test) es
      ≡ total (n_begun test) es
        + total (n_discarded test) es
        + total (n_rejected test) es
        + tally test s.processor.q
        + tally test s.pending
  pub executed :
      u64 (s.processor.exec + in_hand s.processor.worker) ≡ u64 (total (n_begun any_job) es)
  pub dropped :
      u64 s.processor.dropped ≡ u64 (total (n_discarded any_job) es + total (n_rejected any_job) es)

tally-append :
    (test : Job → Bool) (xs ys : List Job) → tally test (xs ++ ys) ≡ tally test xs + tally test ys
tally-append test [] ys = omega arith
tally-append test (x ∷ xs) ys = omega (arith, tally-append test xs ys)

tally-any_job : (xs : List Job) → tally any_job xs ≡ length xs
tally-any_job [] = refl
tally-any_job (x ∷ xs) = omega (arith, tally-any_job xs)

total-snoc :
    (f : Event → ℕ) (es : List Event) (e : Event) → total f (es ++ e ∷ []) ≡ total f es + f e
total-snoc f [] e = omega arith
total-snoc f (x ∷ es) e = omega (arith, total-snoc f es e)

-- What one step moves.
record Moved (test : Job → Bool) (e : Event) (s t : System) : Type 0 where
  jobs :
      n_counted test e + tally test s.processor.q + tally test s.pending
      ≡ n_begun test e
        + n_discarded test e
        + n_rejected test e
        + tally test t.processor.q
        + tally test t.pending
  executed :
      u64 (t.processor.exec + in_hand t.processor.worker)
      ≡ u64 (s.processor.exec + in_hand s.processor.worker + n_begun any_job e)
  dropped :
      u64 t.processor.dropped
      ≡ u64 (s.processor.dropped + (n_discarded any_job e + n_rejected any_job e))

Step-Moved : (test : Job → Bool) {s t : System} {e : Event} → Step s e t → Moved test e s t
unfolding count_post enqueue take_job finish_job start stop set_handlers
Step-Moved test (count s (sample ev)) = ground arith
Step-Moved test (count s (command ev)) = ground arith
Step-Moved test (count s (error ev)) = ground arith
Step-Moved test (enqueues s job before after e) = ground (
  arith,
  ap (tally test) e,
  tally-append test before (job ∷ after),
  tally-append test before after,
  tally-append test s.processor.q (job ∷ []),
)
Step-Moved test (takes s p w e) = ground (arith, tally-any_job s.processor.q)
Step-Moved test (finishes s job w) = ground arith
Step-Moved test (starts s w) = ground arith
Step-Moved test (stops s) = ground arith
Step-Moved test (installs s hs) = ground arith

Step-Ledger :
    (test : Job → Bool) (es : List Event) {s t : System} {e : Event}
    → Step s e t
    → Ledger test es s
    → Ledger test (es ++ e ∷ []) t
Step-Ledger test es {e = e} st l =
    let m = Step-Moved test st in
    record {
      jobs = omega (
        arith,
        m.jobs,
        l.jobs,
        total-snoc (n_counted test) es e,
        total-snoc (n_begun test) es e,
        total-snoc (n_discarded test) es e,
        total-snoc (n_rejected test) es e,
      );
      executed = omega (arith, m.executed, l.executed, total-snoc (n_begun any_job) es e);
      dropped = omega (
        arith,
        m.dropped,
        l.dropped,
        total-snoc (n_discarded any_job) es e,
        total-snoc (n_rejected any_job) es e,
      );
    }

initial-Ledger : (test : Job → Bool) (cfg : Config) → Ledger test [] (initial cfg)
unfolding create
initial-Ledger test cfg = record { jobs = refl; executed = refl; dropped = refl }

Reach-Ledger :
    (test : Job → Bool) (cfg : Config) (s : System) (es : List Event)
    → Reach cfg s es
    → Ledger test es s
Reach-Ledger test cfg s es here = initial-Ledger test cfg
Reach-Ledger test cfg t es (next {es = es'} r st) =
    Step-Ledger test es' st (Reach-Ledger test cfg _ es' r)

-- In every state that the threads reach, whatever the schedule and whether or not a stop drains: the
-- queue and the recorded maximal depth stay within the limit and the maximum covers the queue; for
-- any test of jobs, those that `post` has counted are as many as those that the worker has begun, a
-- stop has discarded, a full queue has rejected, the queue holds and posting threads are about to
-- enqueue, all together; and the counters of executed and of dropped jobs are, modulo 2^64, the
-- numbers of begun jobs without the one at the worker, and of discarded and rejected ones.
pub Reach-accounted :
    (test : Job → Bool) (cfg : Config) (s : System) (es : List Event)
    → Reach cfg s es
    → Inv cfg s × Ledger test es s
Reach-accounted test cfg s es r = (Reach-Inv cfg s es r, Reach-Ledger test cfg s es r)
