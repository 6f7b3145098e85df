-- ===== src/Log.antt =====
-- DkmRtpIpc/src/triad_log.cpp and DkmRtpIpc/include/triad_log.hpp: the logger, which a worker thread
-- writes out. Texts are bytes. Each operation under the mutex is one step.
pub mod Storage
pub mod Moves
pub mod Rotation
pub mod Order
pub mod Tests
use connext_triad.Prelude.{
  ℕ, zero, suc, ◌+◌, ◌*◌, ◌%◌, ◌^◌, ◌-◌, ℤ, pos, negsuc, String, Bool, true, false, not, Option,
  none, some, List, [], ◌∷◌, ◌++◌, take, ltb, leb, length, if◌then◌else◌,
}
use connext_triad.Xml.Text.{Bytes, codes}
use connext_triad.Log.Storage.{
  LogFile, agent_log, backup, Files, F, ◌>>=◌, ◌>>◌, done, caught, when,
}

pub data Lvl : Type 0 where
  debug info trace warn error : Lvl

abbrev pub rank : Lvl → ℕ
rank debug = 0
rank info = 1
rank trace = 2
rank warn = 3
rank error = 4

pub record LogEntry : Type 0 where
  pub level : Lvl
  pub timestamp : Bytes
  pub thread_id : Bytes
  pub tag : Bytes
  pub file : Bytes
  pub line : ℤ
  pub message : Bytes

-- `AsyncLogger` with the level of the module and the state outside.
pub record Logger (World : Type 0) : Type 0 where
  pub current_level : Lvl
  pub log_dir : String
  pub base_filename : String
  pub max_file_size : ℕ
  pub max_backup_files : ℤ
  pub file_output : Bool
  pub console_output : Bool
  pub log_queue : List LogEntry
  pub running : Bool
  pub world : World

abbrev pub level_name : Lvl → Bytes
level_name debug = codes "DBG"
level_name info = codes "INF"
level_name trace = codes "TRC"
level_name warn = codes "WRN"
level_name error = codes "ERR"

abbrev pub escape : String → Bytes
escape s = 27 ∷ codes s

-- The colour of a level on the console. The fallback of `logf` has another one for `info`.
abbrev pub color : Lvl → Bytes
color debug = escape "[90m"
color info = escape "[37m"
color trace = escape "[36m"
color warn = escape "[33m"
color error = escape "[31m"

abbrev pub fallback_color : Lvl → Bytes
fallback_color info = escape "[0m"
fallback_color l = color l

abbrev pub newline : Bytes
newline = 10 ∷ []

-- `static_cast<uintmax_t>(max_mb) * 1024 * 1024`
abbrev pub bytes_of_mb : ℤ → ℕ
bytes_of_mb (pos n) = (n * 1024 * 1024) % 2 ^ 64
bytes_of_mb (negsuc n) = ((2 ^ 64 - (n + 1) % 2 ^ 64) * 1024 * 1024) % 2 ^ 64

module _ {World : Type 0} (files : Files World) where
  open files use {
    exists, file_size, remove, rename, append, create_directories, console, errors, to_string,
    filename,
  }

  -- What the two forms of a line share.
  unfoldable pub line_of : LogEntry → Bytes
  line_of e =
      codes "["
      ++ e.timestamp
      ++ codes "] ["
      ++ level_name e.level
      ++ codes "] [tid:"
      ++ e.thread_id
      ++ codes "] ["
      ++ e.tag
      ++ codes "] ["
      ++ filename e.file
      ++ codes ":"
      ++ to_string e.line
      ++ codes "] "
      ++ e.message

  unfoldable pub format_log : LogEntry → Bool → Bytes
  unfolding line_of
  format_log e use_color =
      if use_color
      then color e.level ++ line_of e ++ escape "[0m" ++ newline
      else line_of e ++ newline

  -- Backup i becomes backup i + 1, if it exists.
  unfoldable pub move_backup : ℕ → F World (Unit {0})
  move_backup i = do
    there ← exists (backup (pos i))
    when there (rename (backup (pos i)) (backup (pos (i + 1))))

  -- `for (int i = n; i >= 1; --i)`
  unfoldable pub shift_backups : ℕ → F World (Unit {0})
  shift_backups zero = done tt
  shift_backups (suc k) = do move_backup (suc k); shift_backups k

  unfoldable pub drop_backup : ℤ → F World (Unit {0})
  drop_backup i = do there ← exists (backup i); when there (remove (backup i))

  -- The backups that move are those below the greatest number.
  unfoldable pub to_shift : ℤ → ℕ
  to_shift (pos n) = n - 1
  to_shift (negsuc n) = 0

  unfoldable pub rotate_logs : ℤ → F World (Unit {0})
  rotate_logs max_backups = do
    drop_backup max_backups
    shift_backups (to_shift max_backups)
    rename agent_log (backup (pos 1))

  unfoldable pub write_file : Logger World → Bytes → F World (Unit {0})
  unfolding rotate_logs
  write_file s line = do
    there ← exists agent_log
    big ← if there then file_size agent_log else done 0
    when (if there then leb s.max_file_size big else false) (rotate_logs s.max_backup_files)
    append agent_log line

  -- An exception ends the writing; it is reported if there is a console.
  unfoldable pub write_log : Logger World → LogEntry → World → World
  unfolding format_log write_file
  write_log s e w =
      let w' = if s.console_output then console (format_log e true) w else w in
      if s.file_output
      then caught (if s.console_output then errors else λ v. v)
          (write_file s (format_log e false) w')
      else w'

  unfoldable pub set_level : Lvl → Logger World → Logger World
  set_level l s = record s { current_level = l }

  -- `init_logger`; an exception of the directory's creation is reported.
  unfoldable pub start : String → String → ℤ → ℤ → Bool → Bool → Logger World → Logger World
  start dir file max_mb backups file_out console_out s = if s.running then s else record s {
    log_dir = dir;
    base_filename = file;
    max_file_size = bytes_of_mb max_mb;
    max_backup_files = backups;
    file_output = file_out;
    console_output = console_out;
    running = true;
    world = caught errors (create_directories dir s.world);
  }

  -- One entry that the worker takes and writes.
  unfoldable pub work : Logger World → Logger World
  unfolding write_log
  work s = elim s.log_queue [
    | [] ↦ s
    | e ∷ rest ↦ record s { log_queue = rest; world = write_log s e s.world }
  ]

  -- `process_queue` with no other thread at work, its two loops as one: `none` where it waits for ever
  -- or the fuel ran out.
  unfoldable pub process_queue : ℕ → Logger World → Option (Logger World)
  unfolding work
  process_queue zero s = none
  process_queue (suc fuel) s = elim s.log_queue [
    | [] ↦ if s.running then none else some s
    | e ∷ rest ↦ process_queue fuel (work s)
  ]

  -- `none` would be a worker that never ends.
  abbrev joined : Logger World → Option (Logger World) → Logger World
  joined s none = s
  joined s (some ended) = ended

  -- `shutdown_logger`: the worker, if there is one, is joined.
  unfoldable pub stop : Logger World → Logger World
  unfolding process_queue
  stop s =
      if s.running
      then joined (record s { running = false })
          (process_queue (suc (length s.log_queue)) (record s { running = false }))
      else s

  unfoldable pub push : LogEntry → Logger World → Logger World
  push e s = record s { log_queue = s.log_queue ++ e ∷ [] }

  -- The entry, whose message `vsnprintf` cuts at its buffer, goes to the queue, or to `stderr` while
  -- the logger does not run.
  unfoldable pub logf : LogEntry → Logger World → Logger World
  unfolding push line_of
  logf e s =
      let cut = record e { message = take (16 * 1024 - 1) e.message } in
      if ltb (rank e.level) (rank s.current_level)
      then s
      else if s.running
      then push cut s
      else record s {
        world = console (fallback_color e.level ++ line_of cut ++ escape "[0m" ++ newline) s.world;
      }
