-- ===== src/Async/Monitor.antt =====
-- The rounds of `monitor_loop` and the differences of counters that they take.
use connext_triad.Prelude.{ℕ, ◌+◌, ◌/◌, ◌<◌, ◌≡◌, ◌^◌, refl, List, [], ◌∷◌, ◌++◌, All, arith, subst}
use connext_triad.Async.{Config, Processor, Stats, u64, delta, get_stats}

-- The differences that a round takes.
pub record Deltas : Type 0 where
  pub sample : ℕ
  pub cmd : ℕ
  pub err : ℕ
  pub exec : ℕ
  pub drop : ℕ

-- What a round logs as rates.
pub record Rates : Type 0 where
  pub enq_sample : ℕ
  pub enq_cmd : ℕ
  pub exec : ℕ
  pub drop : ℕ

unfoldable pub deltas : Stats → Stats → Deltas
deltas st last = record {
  sample = delta st.enq_sample last.enq_sample;
  cmd = delta st.enq_cmd last.enq_cmd;
  err = delta st.enq_err last.enq_err;
  exec = delta st.exec_jobs last.exec_jobs;
  drop = delta st.dropped last.dropped;
}

unfoldable pub rates : Config → Deltas → Rates
rates cfg d = record {
  enq_sample = d.sample / cfg.monitor_sec;
  enq_cmd = d.cmd / cfg.monitor_sec;
  exec = d.exec / cfg.monitor_sec;
  drop = d.drop / cfg.monitor_sec;
}

-- `Stats last_stats{}`
abbrev pub no_stats : Stats
no_stats = record {
  enq_sample = 0;
  enq_cmd = 0;
  enq_err = 0;
  exec_jobs = 0;
  dropped = 0;
  max_depth = 0;
  cur_depth = 0;
}

-- A round, on the processor as it finds it: its differences, and `last_stats` after it.
unfoldable pub monitor_turn : Processor → Stats → Deltas × Stats
unfolding deltas get_stats
monitor_turn p last = let st = get_stats p in (deltas st last, st)

-- One round after the other.
unfoldable pub monitor_loop : List Processor → Stats → List Deltas × Stats
unfolding monitor_turn
monitor_loop [] last = ([], last)
monitor_loop (p ∷ ps) last =
    let (d, last') = monitor_turn p last in
    let (ds, final) = monitor_loop ps last' in (d ∷ ds, final)

abbrev pub sum : (Deltas → ℕ) → List Deltas → ℕ
sum f [] = 0
sum f (d ∷ ds) = f d + sum f ds

-- The counters are 64-bit.
pub record Fits (st : Stats) : Type 0 where
  pub sample : st.enq_sample < 2 ^ 64
  pub cmd : st.enq_cmd < 2 ^ 64
  pub err : st.enq_err < 2 ^ 64
  pub exec : st.exec_jobs < 2 ^ 64
  pub drop : st.dropped < 2 ^ 64

-- What the differences of some rounds add up to, from what was seen before to what is seen last.
pub record AddUp (ds : List Deltas) (before final : Stats) : Type 0 where
  pub sample : u64 (before.enq_sample + sum (λ d. d.sample) ds) ≡ final.enq_sample
  pub cmd : u64 (before.enq_cmd + sum (λ d. d.cmd) ds) ≡ final.enq_cmd
  pub err : u64 (before.enq_err + sum (λ d. d.err) ds) ≡ final.enq_err
  pub exec : u64 (before.exec_jobs + sum (λ d. d.exec) ds) ≡ final.exec_jobs
  pub drop : u64 (before.dropped + sum (λ d. d.drop) ds) ≡ final.dropped

delta-sum :
    (before now rest final : ℕ)
    → before < 2 ^ 64
    → u64 (now + rest) ≡ final
    → u64 (before + (delta now before + rest)) ≡ final
unfolding delta
delta-sum before now rest final b h = omega (arith, h)

delta-nil : (before : ℕ) → before < 2 ^ 64 → u64 (before + 0) ≡ before
delta-nil before b = omega arith

monitor_loop-AddUp :
    (ps : List Processor) (last : Stats)
    → Fits last
    → All (λ p. Fits (get_stats p)) ps
    → AddUp (monitor_loop ps last).0 last (monitor_loop ps last).1
unfolding monitor_loop
monitor_loop-AddUp [] last b h = record {
  sample = delta-nil last.enq_sample b.sample;
  cmd = delta-nil last.enq_cmd b.cmd;
  err = delta-nil last.enq_err b.err;
  exec = delta-nil last.exec_jobs b.exec;
  drop = delta-nil last.dropped b.drop;
}
monitor_loop-AddUp (p ∷ ps) last b (h, hs) =
    let st = get_stats p in
    let rest = monitor_loop-AddUp ps st h hs in
    record {
      sample = delta-sum last.enq_sample st.enq_sample _ _ b.sample rest.sample;
      cmd = delta-sum last.enq_cmd st.enq_cmd _ _ b.cmd rest.cmd;
      err = delta-sum last.enq_err st.enq_err _ _ b.err rest.err;
      exec = delta-sum last.exec_jobs st.exec_jobs _ _ b.exec rest.exec;
      drop = delta-sum last.dropped st.dropped _ _ b.drop rest.drop;
    }

monitor_loop-final :
    (ps : List Processor) (p : Processor) (last : Stats)
    → (monitor_loop (ps ++ p ∷ []) last).1 ≡ get_stats p
unfolding monitor_loop monitor_turn
monitor_loop-final [] p last = refl
monitor_loop-final (q ∷ ps) p last = monitor_loop-final ps p (get_stats q)

All-snoc :
    (ps : List Processor) (p : Processor)
    → All (λ q. Fits (get_stats q)) ps
    → Fits (get_stats p)
    → All (λ q. Fits (get_stats q)) (ps ++ p ∷ [])
All-snoc [] p h k = (k, tt)
All-snoc (q ∷ ps) p (h, hs) k = (h, All-snoc ps p hs k)

no_stats-Fits : Fits no_stats
no_stats-Fits = record {
  sample = omega arith;
  cmd = omega arith;
  err = omega arith;
  exec = omega arith;
  drop = omega arith;
}

-- However the 64-bit counters stand whenever `monitor_loop` wakes up, the differences that its rounds
-- have taken of each counter since the thread began add up, modulo 2^64, to the counter that the
-- last round saw: no event is reported twice or left out, also where a counter wraps.
pub monitor_loop-sums :
    (ps : List Processor) (p : Processor)
    → All (λ q. Fits (get_stats q)) ps
    → Fits (get_stats p)
    → AddUp (monitor_loop (ps ++ p ∷ []) no_stats).0 no_stats (get_stats p)
monitor_loop-sums ps p hs h =
    subst (AddUp (monitor_loop (ps ++ p ∷ []) no_stats).0 no_stats)
      (monitor_loop-final ps p no_stats)
      (monitor_loop-AddUp (ps ++ p ∷ []) no_stats no_stats-Fits (All-snoc ps p hs h))
