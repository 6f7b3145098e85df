-- ===== src/Async/Steps.antt =====
-- The processor under any interleaving of posting threads, the worker, `start`, `stop` and
-- `set_handlers`: the steps, and the invariant of every state that they reach.
use connext_triad.Prelude.{
  ℕ, ◌+◌, ◌≤◌, ◌≡◌, refl, ap, List, [], ◌∷◌, ◌++◌, some, arith, length, length-append, true, false,
}
use connext_triad.Async.{
  Config, Handlers, Job, sample, command, error, Worker, waiting, busy, ended, terminated,
  Processor, u64, create, set_handlers, start, stop, count_post, enqueue, is_full, take_job,
  finish_job,
}

-- `pending` holds the jobs of the threads between the counter of `post` and its `enqueue`.
pub record System : Type 0 where
  pub processor : Processor
  pub pending : List Job

-- What a step does with the jobs: `post` counts one, the queue takes it in or rejects it, the worker
-- takes one out to execute it, or throws all away as it ends.
pub data Event : Type 0 where
  counted accepted rejected begun : Job → Event
  discarded : List Job → Event
  quiet : Event

abbrev enqueue_event : Job → Processor → Event
enqueue_event job p = elim (is_full p) [ true ↦ rejected job | false ↦ accepted job ]

abbrev take_event : List Job → Processor → Event
take_event q p = elim p.worker [
  | waiting ↦ quiet
  | terminated job ↦ quiet
  | ended ↦ discarded q
  | busy job ↦ begun job
]

pub data Step : System → Event → System → Type 0 where
  count :
      (s : System) (job : Job)
      → Step s
          (counted job)
          (record { processor = count_post job s.processor; pending = job ∷ s.pending })
  enqueues :
      (s : System) (job : Job) (before after : List Job)
      → s.pending ≡ before ++ job ∷ after
      → Step s
          (enqueue_event job s.processor)
          (record { processor = (enqueue job s.processor).0; pending = before ++ after })
  takes :
      (s : System) (p : Processor)
      → s.processor.worker ≡ waiting
      → take_job s.processor ≡ some p
      → Step s (take_event s.processor.q p) (record s { processor = p })
  finishes :
      (s : System) (job : Job)
      → s.processor.worker ≡ busy job
      → Step s quiet (record s { processor = (finish_job job s.processor).0 })
  starts :
      (s : System)
      → s.processor.worker ≡ ended
      → Step s quiet (record s { processor = start s.processor })
  -- `running_` is set outside the lock.
  stops : (s : System) → Step s quiet (record s { processor = stop s.processor })
  installs :
      (s : System) (hs : Handlers)
      → Step s quiet (record s { processor = set_handlers hs s.processor })

abbrev pub initial : Config → System
initial cfg = record { processor = create cfg; pending = [] }

pub data Reach (cfg : Config) : System → List Event → Type 0 where
  here : Reach cfg (initial cfg) []
  next :
      {s t : System} {e : Event} {es : List Event}
      → Reach cfg s es
      → Step s e t
      → Reach cfg t (es ++ e ∷ [])

abbrev pub in_hand : Worker → ℕ
in_hand waiting = 0
in_hand (busy job) = 1
in_hand ended = 0
in_hand (terminated job) = 1

abbrev pub posted : Processor → ℕ
posted p = p.enq_sample + p.enq_cmd + p.enq_err

pub record Inv (cfg : Config) (s : System) : Type 0 where
  pub same_cfg : s.processor.cfg ≡ cfg
  pub bounded : length s.processor.q ≤ cfg.max_queue
  pub deepest : length s.processor.q ≤ s.processor.max_depth
  pub depth_bounded : s.processor.max_depth ≤ cfg.max_queue
  pub balance :
      u64 (posted s.processor)
      ≡ u64 (
          s.processor.exec
          + s.processor.dropped
          + length s.processor.q
          + length s.pending
          + in_hand s.processor.worker)

initial-Inv : (cfg : Config) → Inv cfg (initial cfg)
unfolding create
initial-Inv cfg = record {
  same_cfg = refl;
  bounded = omega arith;
  deepest = omega arith;
  depth_bounded = omega arith;
  balance = refl;
}

Step-Inv : {cfg : Config} {s t : System} {e : Event} → Step s e t → Inv cfg s → Inv cfg t
unfolding count_post enqueue take_job finish_job start stop set_handlers
Step-Inv (count s (sample ev)) v = ground arith
Step-Inv (count s (command ev)) v = ground arith
Step-Inv (count s (error ev)) v = ground arith
Step-Inv (enqueues s job before after e) v = ground (
  arith,
  ap length e,
  length-append before (job ∷ after),
  length-append before after,
  length-append s.processor.q (job ∷ []),
)
Step-Inv (takes s p w e) v = ground arith
Step-Inv (finishes s job w) v = ground arith
Step-Inv (starts s w) v = ground arith
Step-Inv (stops s) v = ground arith
Step-Inv (installs s hs) v = ground arith

-- In every state that the threads reach, whatever the schedule, the queue and the recorded maximal
-- depth stay within the limit, the recorded maximum covers the queue, and the counters of posted jobs
-- add up to those of the executed and the dropped with the jobs under way, modulo 2^64.
pub Reach-Inv : (cfg : Config) (s : System) (es : List Event) → Reach cfg s es → Inv cfg s
Reach-Inv cfg s es here = initial-Inv cfg
Reach-Inv cfg s es (next r st) = Step-Inv st (Reach-Inv cfg _ _ r)
