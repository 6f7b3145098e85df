-- ===== src/Log/Order.antt =====
-- The order of the lines of the logger. `logf` reads `running_` and pushes under separate locks, so a
-- push is a step of its own, which may come after a stop.
use connext_triad.Prelude.{
  ℕ, zero, suc, ℤ, String, Bool, true, false, some, List, [], ◌∷◌, ◌++◌, ◌≡◌, refl, sym, ◌∙◌, ap,
  arith, append-nil, append_assoc, length, ◌<◌, Bool-cases, inl, inr, subst,
}
use connext_triad.Log.{
  Lvl, LogEntry, Logger, set_level, start, work, process_queue, stop, push, write_log,
}
use connext_triad.Log.Storage.{Files}

pub data Op : Type 0 where
  level : Lvl → Op
  init : String → String → ℤ → ℤ → Bool → Bool → Op
  push_entry : LogEntry → Op
  worker : Op

abbrev pub pushed : List Op → List LogEntry
pushed [] = []
pushed (push_entry e ∷ ops) = e ∷ pushed ops
pushed (level l ∷ ops) = pushed ops
pushed (init dir file max_mb backups file_out console_out ∷ ops) = pushed ops
pushed (worker ∷ ops) = pushed ops

module _ {World : Type 0} (files : Files World) where
  unfoldable pub step : Op → Logger World → Logger World
  step (level l) s = set_level files l s
  step (init dir file max_mb backups file_out console_out) s =
      start files dir file max_mb backups file_out console_out s
  step (push_entry e) s = push files e s
  step worker s = work files s

  unfoldable pub run : List Op → Logger World → Logger World
  unfolding step
  run [] s = s
  run (op ∷ ops) s = run ops (step op s)

  -- The writing of entries, one after the other, with the settings of a logger.
  abbrev pub write_each : Logger World → List LogEntry → World → World
  write_each s [] w = w
  write_each s (e ∷ es) w = write_each s es (write_log files s e w)

  -- The logger with other contents of its level, its queue and the world.
  abbrev at : Logger World → Lvl → List LogEntry → World → Logger World
  at s l q w = record s { current_level = l; log_queue = q; world = w }

  -- What is still to write comes to the same.
  record Comes (s t : Logger World) (q : List LogEntry) (w : World) : Type 0 where
    lvl : Lvl
    rest : List LogEntry
    now : World
    state : t ≡ at s lvl rest now
    same : write_each s rest now ≡ write_each s q w

  start_running :
      (dir file : String) (max_mb backups : ℤ) (file_out console_out : Bool) (s : Logger World)
      → s.running ≡ true
      → start files dir file max_mb backups file_out console_out s ≡ s
  unfolding start
  start_running dir file max_mb backups file_out console_out s h = ground (arith, h)

  run-Comes :
      (ops : List Op) (s : Logger World) (l : Lvl) (q : List LogEntry) (w : World)
      → s.running ≡ true
      → Comes s (run ops (at s l q w)) (q ++ pushed ops) w
  unfolding run set_level push work write_log
  run-Comes [] s l q w h = record {
    lvl = l;
    rest = q;
    now = w;
    state = refl;
    same = ap (λ x. write_each s x w) (sym (append-nil q));
  }
  run-Comes (level k ∷ ops) s l q w h = run-Comes ops s k q w h
  run-Comes (init dir file max_mb backups file_out console_out ∷ ops) s l q w h =
      subst (λ t. Comes s (run ops t) (q ++ pushed ops) w)
        (sym (start_running dir file max_mb backups file_out console_out (at s l q w) h))
        (run-Comes ops s l q w h)
  run-Comes (push_entry e ∷ ops) s l q w h =
      subst (λ x. Comes s (run ops (at s l (q ++ e ∷ []) w)) x w)
        (append_assoc q (e ∷ []) (pushed ops)) (run-Comes ops s l (q ++ e ∷ []) w h)
  run-Comes (worker ∷ ops) s l [] w h = run-Comes ops s l [] w h
  run-Comes (worker ∷ ops) s l (e ∷ q) w h =
      let c = run-Comes ops s l q (write_log files s e w) h in
      record { lvl = c.lvl; rest = c.rest; now = c.now; state = c.state; same = c.same }

  process_queue-write_each :
      (fuel : ℕ) (s : Logger World) (l : Lvl) (q : List LogEntry) (w : World)
      → length q < fuel
      → process_queue files fuel (record (at s l q w) { running = false })
        ≡ some (record (at s l [] (write_each s q w)) { running = false })
  unfolding process_queue work write_log
  process_queue-write_each zero s l q w f = absurd (omega arith)
  process_queue-write_each (suc fuel) s l [] w f = refl
  process_queue-write_each (suc fuel) s l (e ∷ q) w f =
      process_queue-write_each fuel s l q (write_log files s e w) (omega arith)

  stop-write_each :
      (s : Logger World) (l : Lvl) (q : List LogEntry) (w : World)
      → s.running ≡ true
      → stop files (at s l q w) ≡ record (at s l [] (write_each s q w)) { running = false }
  unfolding stop
  stop-write_each s l q w h =
      ground (arith, h, process_queue-write_each (suc (length q)) s l q w (omega arith))

  -- A stop ends the worker, if there is one, and keeps the level.
  pub stop-running :
      (s : Logger World)
      → ((stop files s).running ≡ false) × ((stop files s).current_level ≡ s.current_level)
  unfolding stop
  stop-running s = elim (Bool-cases s.running) [
    | inl h ↦
        let e = stop-write_each s s.current_level s.log_queue s.world h in
        (ap (λ t. t.running) e, ap (λ t. t.current_level) e)
    | inr h ↦ (ground (arith, h), ground (arith, h))
  ]

  -- After any steps of the threads and the worker on a running logger, whatever levels are set and
  -- however often it is started again, a stop ends the worker with an empty queue, and the console
  -- and the files are as if the entries queued at first and then those pushed had been written one
  -- after the other, in this order and once each, with the settings of the logger.
  pub stop-pushed :
      (ops : List Op) (s : Logger World)
      → s.running ≡ true
      → ((stop files (run ops s)).running ≡ false)
        × ((stop files (run ops s)).log_queue ≡ [])
        × ((stop files (run ops s)).world ≡ write_each s (s.log_queue ++ pushed ops) s.world)
  stop-pushed ops s h =
      let c = run-Comes ops s s.current_level s.log_queue s.world h in
      let e = ap (stop files) c.state ∙ stop-write_each s c.lvl c.rest c.now h in
      (ap (λ t. t.running) e, ap (λ t. t.log_queue) e, ap (λ t. t.world) e ∙ c.same)
