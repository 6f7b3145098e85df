-- ===== src/Async.antt =====
-- RtpDdsGateway/include/async/{sample_event,sample_handler,async_event_processor}.hpp and
-- RtpDdsGateway/src/async/async_event_processor.cpp: the job queue between the DDS and IPC
-- threads, which post, and the one worker thread, which executes. A queued closure is the event
-- that it captures. A handler is a function whose result is the message of the exception that it
-- throws, if it throws one. Mutexes make each operation below one step.
pub mod Steps
pub mod Order
pub mod Ledger
pub mod Drain
pub mod Monitor
mod Tests
use connext_triad.Prelude.{
  ℕ, zero, suc, ◌+◌, ◌-◌, ◌/◌, ◌%◌, ◌^◌, String, Bool, true, false, Option, none, some, List, [],
  ◌∷◌, ◌++◌, leb, ltb, if◌then◌else◌, length,
}

pub record SampleEvent : Type 0 where
  pub topic : String
  pub type_name : String
  pub sample : ℕ
  pub sequence_id : ℕ

pub record CommandEvent : Type 0 where
  pub corr_id : ℕ
  pub route : String
  pub remote : String
  pub body : List ℕ
  pub is_cbor : Bool

pub record ErrorEvent : Type 0 where
  pub location : String
  pub what : String

pub record Handlers : Type 0 where
  pub sample : Option (SampleEvent → Option String)
  pub command : Option (CommandEvent → Option String)
  pub error : Option (String → String → Option String)

pub record Config : Type 0 where
  pub max_queue : ℕ
  pub monitor_sec : ℕ
  pub drain_stop : Bool
  pub exec_warn_us : ℕ

pub data Job : Type 0 where
  sample : SampleEvent → Job
  command : CommandEvent → Job
  error : ErrorEvent → Job

-- The calls of handlers that an operation makes, in order.
pub data Call : Type 0 where
  on_sample : SampleEvent → Call
  on_command : CommandEvent → Call
  on_error : String → String → Call

-- Where the worker thread is: in `cv_.wait`, at a job outside the lock, or not in `loop`. The last is
-- the end of the process, by an exception that leaves the thread.
pub data Worker : Type 0 where
  waiting : Worker
  busy : Job → Worker
  ended : Worker
  terminated : Job → Worker

pub record Processor : Type 0 where
  pub cfg : Config
  pub handlers : Handlers
  pub q : List Job
  pub running : Bool
  pub worker : Worker
  pub max_depth : ℕ
  pub enq_sample : ℕ
  pub enq_cmd : ℕ
  pub enq_err : ℕ
  pub exec : ℕ
  pub dropped : ℕ

-- An atomic `uint64_t` counter wraps.
abbrev pub u64 : ℕ → ℕ
u64 n = n % 2 ^ 64

unfoldable pub create : Config → Processor
create cfg = record {
  cfg = cfg;
  handlers = record { sample = none; command = none; error = none };
  q = [];
  running = false;
  worker = ended;
  max_depth = 0;
  enq_sample = 0;
  enq_cmd = 0;
  enq_err = 0;
  exec = 0;
  dropped = 0;
}

unfoldable pub set_handlers : Handlers → Processor → Processor
set_handlers hs p = record p { handlers = hs }

-- `start`: the exchange of `running_` fails if it is already set.
unfoldable pub start : Processor → Processor
start p = if p.running then p else record p { running = true; worker = waiting }

-- `stop` up to its joins: the worker then leaves `loop` on its own.
unfoldable pub stop : Processor → Processor
stop p = record p { running = false }

-- The call of `error_handler_`, and the exception that comes out of it.
unfoldable pub report_error : Handlers → String → String → List Call × Option String
report_error hs what location = elim hs.error [
  | none ↦ ([], none)
  | some h ↦ (on_error what location ∷ [], h what location)
]

-- The counter that `post` adds to before it enqueues.
unfoldable pub count_post : Job → Processor → Processor
count_post (sample ev) p = record p { enq_sample = u64 (p.enq_sample + 1) }
count_post (command ev) p = record p { enq_cmd = u64 (p.enq_cmd + 1) }
count_post (error ev) p = record p { enq_err = u64 (p.enq_err + 1) }

unfoldable pub is_full : Processor → Bool
is_full p = leb p.cfg.max_queue (length p.q)

unfoldable pub push_back : Job → Processor → Processor
push_back job p = record p {
  q = p.q ++ job ∷ [];
  max_depth = if ltb p.max_depth (length p.q + 1) then length p.q + 1 else p.max_depth;
}

-- The calls of the error handler, and the exception that leaves the function.
unfoldable pub enqueue : Job → Processor → Processor × (List Call × Option String)
unfolding is_full push_back report_error
enqueue job p =
    if is_full p
    then (
      record p { dropped = u64 (p.dropped + 1) },
      report_error p.handlers "queue overflow" "AsyncEventProcessor::enqueue",
    )
    else (push_back job p, ([], none))

unfoldable pub post : Job → Processor → Processor × (List Call × Option String)
unfolding count_post enqueue
post job p = enqueue job (count_post job p)

-- One round of `loop` under the lock: `none` where the worker stays in `cv_.wait`.
unfoldable pub take_job : Processor → Option Processor
take_job p = elim p.q [
  | [] ↦ if p.running then none else some (record p { worker = ended })
  | job ∷ rest ↦
      if p.running
      then some (record p { q = rest; worker = busy job })
      else if p.cfg.drain_stop
      then some (record p { q = rest; worker = busy job })
      else some (record p { dropped = u64 (p.dropped + length p.q); q = []; worker = ended })
]

-- The call of the handler, and the exception that comes out of it.
unfoldable pub call_handler : Handlers → Job → List Call × Option String
call_handler hs (sample ev) = elim hs.sample [
  | none ↦ ([], none)
  | some h ↦ (on_sample ev ∷ [], h ev)
]
call_handler hs (command ev) = elim hs.command [
  | none ↦ ([], none)
  | some h ↦ (on_command ev ∷ [], h ev)
]
call_handler hs (error ev) = elim hs.error [
  | none ↦ ([], none)
  | some h ↦ (on_error ev.what ev.location ∷ [], h ev.what ev.location)
]

-- `job()` in its `try`, with the report of an exception, and the exception that leaves the `catch`.
unfoldable pub execute : Handlers → Job → List Call × Option String
unfolding call_handler report_error
execute hs job =
    let (calls, thrown) = call_handler hs job in
    elim thrown [
      | none ↦ (calls, none)
      | some what ↦
          let (reported, again) = report_error hs what "AsyncEventProcessor::loop" in
          (calls ++ reported, again)
    ]

-- The rest of the round, outside the lock.
unfoldable pub finish_job : Job → Processor → Processor × List Call
unfolding execute
finish_job job p =
    let (calls, escaped) = execute p.handlers job in
    elim escaped [
      | none ↦ (record p { exec = u64 (p.exec + 1); worker = waiting }, calls)
      | some what ↦ (record p { worker = terminated job }, calls)
    ]

-- A job of `loop` with the rounds after it, unless the process ends with the job.
abbrev pub continue :
    Processor × List Call → Option (Processor × List Call) → Option (Processor × List Call)
continue (p, calls) rest = elim p.worker [
  | terminated job ↦ some (p, calls)
  | busy job ↦ none
  | ended ↦ none
  | waiting ↦ elim rest [ none ↦ none | some (last, others) ↦ some (last, calls ++ others) ]
]

-- `loop` with no other thread at work: `none` where it waits for ever or the fuel ran out.
pub loop : ℕ → Processor → Option (Processor × List Call)
unfolding take_job finish_job
loop zero p = none
loop (suc fuel) p = elim (take_job p) [
  | none ↦ none
  | some p' ↦ elim p'.worker [
    | waiting ↦ none
    | terminated job ↦ none
    | ended ↦ some (p', [])
    | busy job ↦ continue (finish_job job p') (loop fuel (finish_job job p').0)
  ]
]

pub record Stats : Type 0 where
  pub enq_sample : ℕ
  pub enq_cmd : ℕ
  pub enq_err : ℕ
  pub exec_jobs : ℕ
  pub dropped : ℕ
  pub max_depth : ℕ
  pub cur_depth : ℕ

unfoldable pub get_stats : Processor → Stats
get_stats p = record {
  enq_sample = p.enq_sample;
  enq_cmd = p.enq_cmd;
  enq_err = p.enq_err;
  exec_jobs = p.exec;
  dropped = p.dropped;
  max_depth = p.max_depth;
  cur_depth = length p.q;
}

-- A difference of wrapping counters.
unfoldable pub delta : ℕ → ℕ → ℕ
delta now last = u64 (now + 2 ^ 64 - last)
