-- ===== src/Log/Tests.antt =====
-- The logger with files in a list and a console that is not kept.
use connext_triad.Prelude.{
  ℕ, pos, String, true, false, Option, none, some, is_some, List, [], ◌∷◌, ◌++◌, ◌≡◌, refl, length,
  if◌then◌else◌,
}
use connext_triad.Xml.Text.{Bytes, codes}
use connext_triad.Log.{
  info, warn, LogEntry, Logger, shift_backups, move_backup, drop_backup, rotate_logs, to_shift,
  start, work, stop, push,
}
use connext_triad.Log.Storage.{LogFile, agent_log, backup, Files}
use connext_triad.Log.Moves.{same_file, Renames}
use connext_triad.Log.Rotation.{rotated, rotate_logs-rotated}
use connext_triad.Log.Order.{Op, push_entry, worker, run, write_each, stop-pushed}

abbrev pub Disk : Type 0
Disk = LogFile → Option Bytes

abbrev size_of : Option Bytes → ℕ
size_of none = 0
size_of (some b) = length b

abbrev appended : Bytes → Option Bytes → Bytes
appended b none = b
appended b (some old) = old ++ b

abbrev pub disk : Files Disk
disk = record {
  exists = λ f w. (some (is_some (w f)), w);
  file_size = λ f w. (some (size_of (w f)), w);
  remove = λ f w. (some tt, λ g. if same_file f g then none else w g);
  rename =
      λ f g w. (some tt, λ h. if same_file g h then w f else if same_file f h then none else w h);
  append = λ f b w. (some tt, λ g. if same_file f g then some (appended b (w f)) else w g);
  create_directories = λ dir w. (some tt, w);
  console = λ b w. w;
  errors = λ w. w;
  to_string = λ n. codes "7";
  filename = λ b. b;
}

disk-Renames : Renames disk (λ w f. w f)
disk-Renames = record {
  exists_lem = λ f w. refl;
  remove_done = λ f w h. refl;
  remove_lem = λ f g w h. refl;
  rename_done = λ f g w h. refl;
  rename_lem = λ f g h w k d. refl;
}

abbrev three_files : Disk
three_files agent_log = some (codes "new")
three_files (backup i) =
    if same_file (backup i) (backup (pos 1))
    then some (codes "old")
    else if same_file (backup i) (backup (pos 2))
    then some (codes "older")
    else none

rotate_logs-rotated_example :
    ((rotate_logs disk (pos 2) three_files).0 ≡ some tt)
    × ((rotate_logs disk (pos 2) three_files).1 (backup (pos 2))
        ≡ rotated 2 three_files (backup (pos 2)))
rotate_logs-rotated_example =
    rotate_logs-rotated disk (λ w f. w f) disk-Renames 1 three_files (backup (pos 2)) refl

-- The oldest backup is gone.
two_backups : (rotate_logs disk (pos 2) three_files).1 (backup (pos 2)) ≡ some (codes "old")
unfolding rotate_logs drop_backup move_backup shift_backups to_shift
two_backups = refl

-- With no backups wanted, one is still kept.
one_is_kept : (rotate_logs disk (pos 0) three_files).1 (backup (pos 1)) ≡ some (codes "new")
unfolding rotate_logs drop_backup move_backup shift_backups to_shift
one_is_kept = refl

abbrev entry : String → LogEntry
entry text = record {
  level = warn;
  timestamp = codes "now";
  thread_id = codes "1";
  tag = codes "T";
  file = codes "f";
  line = pos 7;
  message = codes text;
}

abbrev pub silent : Logger Disk
silent = record {
  current_level = info;
  log_dir = "";
  base_filename = "";
  max_file_size = 0;
  max_backup_files = pos 0;
  file_output = true;
  console_output = true;
  log_queue = [];
  running = false;
  world = λ f. none;
}

abbrev steps : List Op
steps = push_entry (entry "a") ∷ worker ∷ push_entry (entry "b") ∷ []

abbrev running_logger : Logger Disk
running_logger = record silent { running = true; console_output = false; max_file_size = 1000 }

stop-pushed_example :
    ((stop disk (run disk steps running_logger)).running ≡ false)
    × ((stop disk (run disk steps running_logger)).log_queue ≡ [])
    × ((stop disk (run disk steps running_logger)).world
        ≡ write_each disk running_logger (entry "a" ∷ entry "b" ∷ []) (λ f. none))
stop-pushed_example = stop-pushed disk steps running_logger refl

line_in_file :
    (stop disk (run disk steps running_logger)).world agent_log
    ≡ some (
        codes "[now] [WRN] [tid:1] [T] [f:7] a"
        ++ 10 ∷ []
        ++ codes "[now] [WRN] [tid:1] [T] [f:7] b"
        ++ 10 ∷ [])
unfolding run start push work stop
line_in_file = refl
