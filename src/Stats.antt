-- ===== src/Stats.antt =====
-- RtpDdsGateway/src/stats_manager.cpp: the counters of `StatsManager`, which each snapshot takes and
-- resets. The timestamp is an argument.
pub mod Totals
pub mod Output
pub mod Matched
mod Tests
use connext_triad.Prelude.{
  ℕ, ◌+◌, ◌*◌, ◌/◌, ◌%◌, ◌^◌, String, Bool, true, false, ◌||◌, ◌++◌, List, [], ◌∷◌, Map, insert,
  get_or, string_eq, ◌==◌, if◌then◌else◌,
}
use connext_triad.Dds.State.{Counts}

pub data OutputFormat : Type 0 where
  text json csv : OutputFormat

abbrev pub u64 : ℕ → ℕ
u64 n = n % 2 ^ 64

abbrev pub u32 : ℕ → ℕ
u32 n = n % 2 ^ 32

pub record StatsManager : Type 0 where
  pub ipc_in : ℕ
  pub ipc_out : ℕ
  pub writer_counts : Map String ℕ
  pub writer_matched : Map String ℕ
  pub reader_counts : Map String ℕ
  pub reader_matched : Map String ℕ
  pub entities : Counts
  pub file_output : Bool
  pub file_path : String
  pub format : OutputFormat
  pub running : Bool

pub record StatsSnapshot : Type 0 where
  pub timestamp : String
  pub ipc_in : ℕ
  pub ipc_out : ℕ
  pub entities : Counts
  pub writer_counts : Map String ℕ
  pub reader_counts : Map String ℕ
  pub writer_matched : Map String ℕ
  pub reader_matched : Map String ℕ

unfoldable pub create : StatsManager
create = record {
  ipc_in = 0;
  ipc_out = 0;
  writer_counts = [];
  writer_matched = [];
  reader_counts = [];
  reader_matched = [];
  entities = record {
    participants = 0;
    publishers = 0;
    subscribers = 0;
    writers = 0;
    readers = 0;
    topics = 0;
  };
  file_output = false;
  file_path = "";
  format = text;
  running = false;
}

unfoldable pub set_output_format : String → StatsManager → StatsManager
set_output_format fmt s =
    if (fmt == "json") || (fmt == "JSON")
    then record s { format = json }
    else if (fmt == "csv") || (fmt == "CSV")
    then record s { format = csv }
    else record s { format = text }

unfoldable pub inc_ipc_in : StatsManager → StatsManager
inc_ipc_in s = record s { ipc_in = u64 (s.ipc_in + 1) }

unfoldable pub inc_ipc_out : StatsManager → StatsManager
inc_ipc_out s = record s { ipc_out = u64 (s.ipc_out + 1) }

-- `counts[topic]++`
abbrev pub raise : String → Map String ℕ → Map String ℕ
raise topic counts = insert topic (u64 (get_or 0 topic counts + 1)) counts

unfoldable pub inc_writer_count : String → StatsManager → StatsManager
inc_writer_count topic s = record s { writer_counts = raise topic s.writer_counts }

unfoldable pub inc_reader_count : String → StatsManager → StatsManager
inc_reader_count topic s = record s { reader_counts = raise topic s.reader_counts }

unfoldable pub set_writer_matched_count : String → ℕ → StatsManager → StatsManager
set_writer_matched_count topic n s = record s {
  writer_matched = insert topic (u32 n) s.writer_matched;
}

unfoldable pub set_reader_matched_count : String → ℕ → StatsManager → StatsManager
set_reader_matched_count topic n s = record s {
  reader_matched = insert topic (u32 n) s.reader_matched;
}

unfoldable pub set_entity_snapshot : Counts → StatsManager → StatsManager
set_entity_snapshot counts s = record s { entities = counts }

unfoldable pub snapshot_and_reset_counts : String → StatsManager → StatsManager × StatsSnapshot
snapshot_and_reset_counts now s = (
  record s {
    ipc_in = 0;
    ipc_out = 0;
    writer_counts = [];
    writer_matched = [];
    reader_counts = [];
    reader_matched = [];
  },
  record {
    timestamp = now;
    ipc_in = s.ipc_in;
    ipc_out = s.ipc_out;
    entities = s.entities;
    writer_counts = s.writer_counts;
    reader_counts = s.reader_counts;
    writer_matched = s.writer_matched;
    reader_matched = s.reader_matched;
  },
)

-- When `scheduler_thread` wakes up, in seconds.
unfoldable pub next_epoch_secs : ℕ → ℕ
next_epoch_secs epoch_secs = (epoch_secs / 60 + 1) * 60

-- The calls that other threads and the scheduler make.
pub data Op : Type 0 where
  ipc_in ipc_out : Op
  wrote took : String → Op
  writer_matched reader_matched : String → ℕ → Op
  entity_snapshot : Counts → Op
  snapshot : String → Op

-- The state after some calls, and the snapshots that were taken.
unfoldable pub run : List Op → StatsManager → StatsManager × List StatsSnapshot
unfolding inc_ipc_in inc_ipc_out inc_writer_count inc_reader_count set_writer_matched_count
    set_reader_matched_count set_entity_snapshot snapshot_and_reset_counts
run [] s = (s, [])
run (ipc_in ∷ ops) s = run ops (inc_ipc_in s)
run (ipc_out ∷ ops) s = run ops (inc_ipc_out s)
run (wrote topic ∷ ops) s = run ops (inc_writer_count topic s)
run (took topic ∷ ops) s = run ops (inc_reader_count topic s)
run (writer_matched topic n ∷ ops) s = run ops (set_writer_matched_count topic n s)
run (reader_matched topic n ∷ ops) s = run ops (set_reader_matched_count topic n s)
run (entity_snapshot counts ∷ ops) s = run ops (set_entity_snapshot counts s)
run (snapshot now ∷ ops) s =
    let (s', taken) = snapshot_and_reset_counts now s in
    let (s'', rest) = run ops s' in (s'', taken ∷ rest)
