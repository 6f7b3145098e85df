-- ===== src/Config/Watch.antt =====
-- `start_watching` of RtpDdsGateway/src/app_config.cpp, and the set-up of the logger by
-- RtpDdsGateway/src/main.cpp: how the logger follows the settings.
use connext_triad.Prelude.{
  ℕ, String, Bool, true, false, Option, List, [], ◌∷◌, not, ◌||◌, ◌==◌, string_eq, if◌then◌else◌,
  ◌≡◌, refl, sym, subst, ◌∙◌, arith, ==_iff, Bool-cases, inl, inr,
}
use connext_triad.Rpc.Json.{JsonLib, Result}
use connext_triad.Log.Order.{stop-running}
use connext_triad.Log.{Lvl, debug, info, trace, warn, error, Logger, set_level, start, stop}
use connext_triad.Log.Storage.{Files}
use connext_triad.Config.{AppConfig, LogConfig, load}

-- Another name means `info`.
abbrev pub level_of : String → Lvl
level_of name =
    if name == "debug"
    then debug
    else if name == "trace"
    then trace
    else if name == "warn"
    then warn
    else if name == "error"
    then error
    else info

-- The settings that the thread has applied last.
pub record Applied : Type 0 where
  pub level : String
  pub file_output : Bool
  pub console_output : Bool

abbrev bool_beq : Bool → Bool → Bool
bool_beq true b = b
bool_beq false b = not b

module _ {World : Type 0} (files : Files World) where
  -- `if (file_output || console_output) init_logger(…);`
  unfoldable pub init_outputs : LogConfig → Logger World → Logger World
  init_outputs log l =
      if log.file_output || log.console_output
      then start files log.log_dir log.file_name log.max_file_size_mb log.max_backup_files
          log.file_output log.console_output l
      else l

  -- `main`: the logger before the gateway starts.
  unfoldable pub set_up : LogConfig → Logger World → Logger World
  unfolding init_outputs
  set_up log l = set_level files (level_of log.level) (init_outputs log l)

  unfoldable pub first_applied : LogConfig → Applied
  first_applied log = record {
    level = log.level;
    file_output = log.file_output;
    console_output = log.console_output;
  }

  unfoldable pub follow_level : LogConfig → Applied → Logger World → Applied × Logger World
  follow_level log last l =
      if not (log.level == last.level)
      then (record last { level = log.level }, set_level files (level_of log.level) l)
      else (last, l)

  -- A changed output stops the logger, which starts again if there is an output.
  unfoldable pub follow_outputs : LogConfig → Applied → Logger World → Applied × Logger World
  unfolding init_outputs
  follow_outputs log last l =
      if not (bool_beq log.file_output last.file_output)
        || not (bool_beq log.console_output last.console_output)
      then (
        record last { file_output = log.file_output; console_output = log.console_output },
        init_outputs log (stop files l),
      )
      else (last, l)

  -- One turn of the thread, with the level first, after a load that succeeded.
  unfoldable pub follow : LogConfig → Applied → Logger World → Applied × Logger World
  unfolding follow_level follow_outputs
  follow log last l = let (last1, l1) = follow_level log last l in follow_outputs log last1 l1

  -- The logger is as the applied settings say.
  pub record Follows (last : Applied) (l : Logger World) : Type 0 where
    pub at_level : l.current_level ≡ level_of last.level
    pub if_output : l.running ≡ (last.file_output || last.console_output)
    pub to_file : l.running ≡ true → l.file_output ≡ last.file_output
    pub to_console : l.running ≡ true → l.console_output ≡ last.console_output

  stopped :
      (l : Logger World)
      → ((stop files l).running ≡ false) × ((stop files l).current_level ≡ l.current_level)
  stopped l = stop-running files l

  -- What `init_logger` makes of a logger that does not run.
  init_outputs-Follows :
      (log : LogConfig) (level : String) (l : Logger World)
      → l.running ≡ false
      → l.current_level ≡ level_of level
      → Follows
          (record {
            level = level;
            file_output = log.file_output;
            console_output = log.console_output;
          })
          (init_outputs log l)
  unfolding init_outputs start
  init_outputs-Follows log level l h k = record {
    at_level = ground (arith, h, k);
    if_output = ground (arith, h, k);
    to_file = λ r. ground (arith, h, k, r);
    to_console = λ r. ground (arith, h, k, r);
  }

  pub set_up-Follows :
      (log : LogConfig) (l : Logger World)
      → l.running ≡ false
      → Follows (first_applied log) (set_up log l)
  unfolding set_up set_level first_applied init_outputs start
  set_up-Follows log l h = record {
    at_level = refl;
    if_output = ground (arith, h);
    to_file = λ r. ground (arith, h, r);
    to_console = λ r. ground (arith, h, r);
  }

  follow_level-Follows :
      (log : LogConfig) (last : Applied) (l : Logger World)
      → Follows last l
      → Follows (follow_level log last l).0 (follow_level log last l).1
        × ((follow_level log last l).0.level ≡ log.level)
  unfolding follow_level set_level
  follow_level-Follows log last l f = elim (Bool-cases (log.level == last.level)) [
    | inl same ↦ rw same (f, sym ((==_iff log.level last.level).0 same))
    | inr differs ↦ rw differs (
      record {
        at_level = refl;
        if_output = f.if_output;
        to_file = f.to_file;
        to_console = f.to_console;
      },
      refl,
    )
  ]

  bool_beq-eq : (a b : Bool) → bool_beq a b ≡ true → a ≡ b
  bool_beq-eq true b h = sym h
  bool_beq-eq false true h = cc
  bool_beq-eq false false h = refl

  follow_outputs-Follows :
      (log : LogConfig) (last : Applied) (l : Logger World)
      → Follows last l
      → Follows (follow_outputs log last l).0 (follow_outputs log last l).1
        × ((follow_outputs log last l).0
            ≡ record last { file_output = log.file_output; console_output = log.console_output })
  unfolding follow_outputs
  follow_outputs-Follows log last l f =
      let restarted =
        init_outputs-Follows log last.level (stop files l) (stopped l).0
          ((stopped l).1 ∙ f.at_level) in
      elim (Bool-cases (bool_beq log.file_output last.file_output)) [
        | inr file ↦ rw file (restarted, refl)
        | inl file ↦ elim (Bool-cases (bool_beq log.console_output last.console_output)) [
          | inr console ↦ rw (file, console) (restarted, refl)
          | inl console ↦
              rw (file, console)
                (
                  f,
                  ground (
                    arith,
                    bool_beq-eq log.file_output last.file_output file,
                    bool_beq-eq log.console_output last.console_output console,
                  ),
                )
        ]
      ]

  pub follow-Follows :
      (log : LogConfig) (last : Applied) (l : Logger World)
      → Follows last l
      → Follows (follow log last l).0 (follow log last l).1
        × ((follow log last l).0 ≡ first_applied log)
  unfolding follow first_applied
  follow-Follows log last l f =
      let level = follow_level-Follows log last l f in
      let (last1, l1) = follow_level log last l in
      let outputs = follow_outputs-Follows log last1 l1 level.0 in
      (outputs.0, ground (arith, outputs.1, level.1))

-- The settings, those applied, and the logger.
pub record Watched (World : Type 0) : Type 0 where
  pub config : AppConfig
  pub applied : Applied
  pub logger : Logger World

module _ (lib : JsonLib) (value_u16 : String → ℕ → lib.Json → Result ℕ) {World : Type 0}
    (files : Files World) where
  -- One turn of the thread, with what the file holds then.
  unfoldable pub turn : Option (Result lib.Json) → Watched World → Watched World
  turn contents w =
      let (loaded, config) = load lib value_u16 contents w.config in
      let (applied, logger) = follow files config.logging w.applied w.logger in
      if loaded
      then record { config = config; applied = applied; logger = logger }
      else record w { config = config }

  unfoldable pub watch : List (Option (Result lib.Json)) → Watched World → Watched World
  unfolding turn
  watch [] w = w
  watch (contents ∷ later) w = watch later (turn contents w)

  -- `main` with the settings `c`: the logger, and then the thread.
  unfoldable pub begin : AppConfig → Logger World → Watched World
  begin c l = record {
    config = c;
    applied = first_applied files c.logging;
    logger = set_up files c.logging l;
  }

  turn-Follows :
      (contents : Option (Result lib.Json)) (w : Watched World)
      → Follows files w.applied w.logger
      → Follows files (turn contents w).applied (turn contents w).logger
        × ((load lib value_u16 contents w.config).0 ≡ true
            → (turn contents w).applied ≡ first_applied files (turn contents w).config.logging)
  unfolding turn
  turn-Follows contents w f =
      let (loaded, config) = load lib value_u16 contents w.config in
      let next = follow-Follows files config.logging w.applied w.logger f in
      elim (Bool-cases loaded) [ inl e ↦ rw e (next.0, λ h. next.1) | inr e ↦ rw e (f, λ h. cc) ]

  watch_keeps-Follows :
      (files_read : List (Option (Result lib.Json))) (w : Watched World)
      → Follows files w.applied w.logger
      → Follows files (watch files_read w).applied (watch files_read w).logger
  unfolding watch
  watch_keeps-Follows [] w f = f
  watch_keeps-Follows (contents ∷ later) w f =
      watch_keeps-Follows later (turn contents w) (turn-Follows contents w f).0

  -- Whatever the file held in earlier turns, after a turn that loads it the logger is as the
  -- settings say: at their level, running just if there is an output, and with their outputs.
  pub watch-Follows :
      (c : AppConfig) (l : Logger World) (before : List (Option (Result lib.Json)))
      (contents : Option (Result lib.Json))
      → l.running ≡ false
      → (load lib value_u16 contents (watch before (begin c l)).config).0 ≡ true
      → Follows files
          (first_applied files (turn contents (watch before (begin c l))).config.logging)
          (turn contents (watch before (begin c l))).logger
  unfolding begin
  watch-Follows c l before contents h k =
      let last = watch before (begin c l) in
      let steps =
        turn-Follows contents last
          (watch_keeps-Follows before (begin c l) (set_up-Follows files c.logging l h)) in
      subst (λ a. Follows files a (turn contents last).logger) (steps.1 k) steps.0
