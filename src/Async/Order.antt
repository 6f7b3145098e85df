-- ===== src/Async/Order.antt =====
-- The order in which the worker begins the jobs, over any interleaving.
use connext_triad.Prelude.{
  ◌≡◌, refl, sym, ap, ◌∙◌, List, [], ◌∷◌, ◌++◌, true, arith, append_assoc, append-nil,
}
use connext_triad.Async.{
  Config, Job, sample, command, error, create, count_post, enqueue, take_job, finish_job, start,
  stop, set_handlers,
}
use connext_triad.Async.Steps.{
  System, Event, accepted, rejected, begun, quiet, counted, discarded, Step, count, enqueues, takes,
  finishes, starts, stops, installs, Reach, here, next, Reach-Inv,
}

-- The jobs that the queue took in, oldest first.
abbrev pub accepted_jobs : List Event → List Job
accepted_jobs [] = []
accepted_jobs (accepted job ∷ es) = job ∷ accepted_jobs es
accepted_jobs (rejected job ∷ es) = accepted_jobs es
accepted_jobs (begun job ∷ es) = accepted_jobs es
accepted_jobs (quiet ∷ es) = accepted_jobs es
accepted_jobs (counted job ∷ es) = accepted_jobs es
accepted_jobs (discarded q ∷ es) = accepted_jobs es

-- The jobs that the worker took out to execute, oldest first.
abbrev pub begun_jobs : List Event → List Job
begun_jobs [] = []
begun_jobs (accepted job ∷ es) = begun_jobs es
begun_jobs (rejected job ∷ es) = begun_jobs es
begun_jobs (begun job ∷ es) = job ∷ begun_jobs es
begun_jobs (quiet ∷ es) = begun_jobs es
begun_jobs (counted job ∷ es) = begun_jobs es
begun_jobs (discarded q ∷ es) = begun_jobs es

accepted_jobs-append :
    (es fs : List Event) → accepted_jobs (es ++ fs) ≡ accepted_jobs es ++ accepted_jobs fs
accepted_jobs-append [] fs = refl
accepted_jobs-append (accepted job ∷ es) fs = ap (◌∷◌ job) (accepted_jobs-append es fs)
accepted_jobs-append (rejected job ∷ es) fs = accepted_jobs-append es fs
accepted_jobs-append (begun job ∷ es) fs = accepted_jobs-append es fs
accepted_jobs-append (quiet ∷ es) fs = accepted_jobs-append es fs
accepted_jobs-append (counted job ∷ es) fs = accepted_jobs-append es fs
accepted_jobs-append (discarded q ∷ es) fs = accepted_jobs-append es fs

begun_jobs-append : (es fs : List Event) → begun_jobs (es ++ fs) ≡ begun_jobs es ++ begun_jobs fs
begun_jobs-append [] fs = refl
begun_jobs-append (accepted job ∷ es) fs = begun_jobs-append es fs
begun_jobs-append (rejected job ∷ es) fs = begun_jobs-append es fs
begun_jobs-append (begun job ∷ es) fs = ap (◌∷◌ job) (begun_jobs-append es fs)
begun_jobs-append (quiet ∷ es) fs = begun_jobs-append es fs
begun_jobs-append (counted job ∷ es) fs = begun_jobs-append es fs
begun_jobs-append (discarded q ∷ es) fs = begun_jobs-append es fs

-- One step, where the configuration drains: what was queued, then what is taken in now, is what is
-- begun now, then what is queued.
Step-queue :
    {s t : System} {e : Event}
    → Step s e t
    → s.processor.cfg.drain_stop ≡ true
    → s.processor.q ++ accepted_jobs (e ∷ []) ≡ begun_jobs (e ∷ []) ++ t.processor.q
unfolding count_post enqueue take_job finish_job start stop set_handlers
Step-queue (count s (sample ev)) d = append-nil _
Step-queue (count s (command ev)) d = append-nil _
Step-queue (count s (error ev)) d = append-nil _
Step-queue (enqueues s job before after e) d = ground (arith, append-nil s.processor.q)
Step-queue (takes s p w e) d = ground (arith, append-nil s.processor.q)
Step-queue (finishes s job w) d = ground (arith, append-nil s.processor.q)
Step-queue (starts s w) d = ground (arith, append-nil s.processor.q)
Step-queue (stops s) d = append-nil _
Step-queue (installs s hs) d = append-nil _

-- If the processor drains on `stop`, then after any interleaving of threads the jobs that the queue
-- accepted are those that the worker has begun, followed by those still queued, in the same order:
-- no accepted job is lost, duplicated or overtaken.
pub begun-queue-accepted :
    (cfg : Config) (s : System) (es : List Event)
    → Reach cfg s es
    → cfg.drain_stop ≡ true
    → accepted_jobs es ≡ begun_jobs es ++ s.processor.q
unfolding create
begun-queue-accepted cfg s es here d = refl
begun-queue-accepted cfg t es (next {s = s} {e = e} {es = es'} r st) d =
    rw (accepted_jobs-append es' (e ∷ []), begun_jobs-append es' (e ∷ []))
      (rw (begun-queue-accepted cfg s es' r d) (
        append_assoc (begun_jobs es') s.processor.q (accepted_jobs (e ∷ []))
        ∙ ap (◌++◌ (begun_jobs es'))
            (Step-queue st (ap (λ c. c.drain_stop) (Reach-Inv cfg s es' r).same_cfg ∙ d))
        ∙ sym (append_assoc (begun_jobs es') (begun_jobs (e ∷ [])) t.processor.q)))
