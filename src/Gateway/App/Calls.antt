-- ===== src/Gateway/App/Calls.antt =====
-- Sequences of calls of the gateway, and what its processor keeps.
use connext_triad.Prelude.{
  Bool, true, false, Option, none, some, List, [], ◌∷◌, ◌≡◌, refl, arith, ◌⊎◌, inl, inr, Bool-cases,
  ap, subst, sym, if◌then◌else◌, not, ◌&&◌, ◌||◌,
}
use connext_triad.Async as Async
use connext_triad.Async.{Processor, Handlers, Job, Call, Worker, waiting, ended, loop}
use connext_triad.Async.Drain.{execute_all, drained_with, add_exec, loop-stop, Reports}
use connext_triad.Gateway.App.{
  DdsReceiveMode, Adapter, GatewayApp, config, create_receiver, start_server, start_client,
  set_receive_mode, stop_async, stop, post_job, work,
}

pub data AppCall : Type 0 where
  mode : DdsReceiveMode → AppCall
  serve : Bool → AppCall
  connect : Bool → AppCall
  post : Job → AppCall
  round : AppCall
  halt : AppCall

abbrev pub is_connected : Option Adapter → Bool
is_connected none = false
is_connected (some a) = a.post_cmd

abbrev pub has_receiver : Option DdsReceiveMode → Bool
has_receiver none = false
has_receiver (some rx) = true

module _ {World : Type 0} where
  -- The state after a call, and the handler calls that it makes.
  unfoldable pub act : AppCall → GatewayApp World → GatewayApp World × List Call
  unfolding set_receive_mode start_server start_client stop post_job work
  act (mode m) app = ((set_receive_mode m app).1, [])
  act (serve opens) app = ((start_server opens app).0, [])
  act (connect opens) app = ((start_client opens app).0, [])
  act (post job) app = let (app', out) = post_job job app in (app', out.0)
  act round app = work app
  act halt app = stop app

  -- After the end of the process nothing happens.
  unfoldable pub perform : AppCall → GatewayApp World → GatewayApp World × List Call
  unfolding act
  perform call app = if app.aborted then (app, []) else act call app

  unfoldable pub after : List AppCall → GatewayApp World → GatewayApp World
  unfolding perform
  after [] app = app
  after (call ∷ calls) app = after calls (perform call app).0

abbrev pub endpoint_running : Option Adapter → Bool
endpoint_running none = false
endpoint_running (some a) = a.ipc.running

-- No start opens a socket while the endpoint runs, from a state in which it runs or not.
abbrev pub orderly : Bool → List AppCall → Bool
orderly on [] = true
orderly on (mode m ∷ calls) = orderly on calls
orderly on (serve opens ∷ calls) = not (on && opens) && orderly (on || opens) calls
orderly on (connect opens ∷ calls) = not (on && opens) && orderly (on || opens) calls
orderly on (post job ∷ calls) = orderly on calls
orderly on (round ∷ calls) = orderly on calls
orderly on (halt ∷ calls) = orderly false calls

-- The processor keeps its configuration and its handlers, and its worker waits while it runs.
pub record Kept (hs : Handlers) (p : Processor) : Type 0 where
  pub configured : p.cfg ≡ config
  pub handled : p.handlers ≡ hs
  pub waits : p.running ≡ true → p.worker ≡ waiting

pub start-Kept : (hs : Handlers) (p : Processor) → Kept hs p → Kept hs (Async.start p)
unfolding Async.start
start-Kept hs p k = record {
  configured = ground (arith, k.configured);
  handled = ground (arith, k.handled);
  waits = ground (arith, k.waits);
}

pub start-running : (p : Processor) → (Async.start p).running ≡ true
unfolding Async.start
start-running p = ground arith

pub post-Kept :
    (hs : Handlers) (job : Job) (p : Processor) → Kept hs p → Kept hs (Async.post job p).0
unfolding Async.post Async.enqueue Async.push_back Async.is_full Async.count_post
post-Kept hs job p k = record {
  configured = ground (arith, k.configured);
  handled = ground (arith, k.handled);
  waits = ground (arith, k.waits);
}

pub post-running : (job : Job) (p : Processor) → (Async.post job p).0.running ≡ p.running
unfolding Async.post Async.enqueue Async.push_back Async.is_full Async.count_post
post-running job p = ground arith

pub stop_async-drains :
    (p : Processor)
    → p.running ≡ true
    → Reports p.handlers
    → p.worker ≡ waiting
    → p.cfg.drain_stop ≡ true
    → stop_async p ≡ (drained_with p (add_exec p.exec p.q), execute_all p.handlers p.q)
unfolding stop_async
stop_async-drains p r e w d = ground (arith, r, loop-stop p e w d)

pub stop_async-stopped : (p : Processor) → p.running ≡ false → stop_async p ≡ (p, [])
unfolding stop_async
stop_async-stopped p r = ground (arith, r)

pub kept-Reports : (hs : Handlers) (p : Processor) → Reports hs → Kept hs p → Reports p.handlers
kept-Reports hs p e k = subst Reports (sym k.handled) e

pub stop_async-Kept :
    (hs : Handlers) (p : Processor) → Reports hs → Kept hs p → Kept hs (stop_async p).0
stop_async-Kept hs p e k = elim (Bool-cases p.running) [
  | inl r ↦
      subst (λ q. Kept hs q.0)
        (sym (
          stop_async-drains p r (kept-Reports hs p e k) (k.waits r)
            (ap (λ c. c.drain_stop) k.configured)))
        (record { configured = k.configured; handled = k.handled; waits = λ e. ground (arith, e) })
  | inr r ↦ subst (λ q. Kept hs q.0) (sym (stop_async-stopped p r)) k
]

-- The worker runs and the adapter has the function that posts commands; or there is no adapter.
abbrev pub Served : {World : Type 0} → GatewayApp World → Type 0
Served app =
    (app.ipc ≡ none)
    ⊎ (app.async.running ≡ true) × (is_connected app.ipc ≡ true) × (has_receiver app.rx ≡ true)

pub has_receiver-create_receiver :
    (m : DdsReceiveMode) (rx : Option DdsReceiveMode) → has_receiver (create_receiver m rx) ≡ true
unfolding create_receiver
has_receiver-create_receiver m none = refl
has_receiver-create_receiver m (some r) = refl

pub and_both : (a b : Bool) → a && b ≡ true → (a ≡ true) × (b ≡ true)
and_both true b e = (refl, e)
and_both false b e = absurd (ground (arith, e))
