-- ===== src/Stats/Totals.antt =====
-- The snapshots together count every event once.
use connext_triad.Prelude.{
  ℕ, ◌+◌, ◌%◌, ◌≤◌, ◌<◌, ◌≡◌, String, List, [], ◌∷◌, Map, lookup, get_or, lookup-insert, string_eq,
  ◌==◌, ==_iff, if◌then◌else◌, arith,
}
use connext_triad.Stats.{
  StatsManager, StatsSnapshot, Op, ipc_in, ipc_out, wrote, took, writer_matched, reader_matched,
  entity_snapshot, snapshot, run, u64, inc_ipc_in, inc_ipc_out, inc_writer_count, inc_reader_count,
  set_writer_matched_count, set_reader_matched_count, set_entity_snapshot,
  snapshot_and_reset_counts, next_epoch_secs, raise,
}

-- The sum over the snapshots.
abbrev pub total : (StatsSnapshot → ℕ) → List StatsSnapshot → ℕ
total f [] = 0
total f (s ∷ ss) = f s + total f ss

-- How often a topic was written, and how often a request came in.
abbrev pub writes : String → List Op → ℕ
writes topic [] = 0
writes topic (wrote t ∷ ops) = (if t == topic then 1 else 0) + writes topic ops
writes topic (_ ∷ ops) = writes topic ops

abbrev pub requests : List Op → ℕ
requests [] = 0
requests (ipc_in ∷ ops) = 1 + requests ops
requests (_ ∷ ops) = requests ops

abbrev pub written : String → StatsSnapshot → ℕ
written topic s = get_or 0 topic s.writer_counts

get_or-raise :
    (topic t : String) (counts : Map String ℕ)
    → get_or 0 topic (raise t counts)
      ≡ (if t == topic then u64 (get_or 0 topic counts + 1) else get_or 0 topic counts)
get_or-raise topic t counts =
    ground (arith, lookup-insert t topic (u64 (get_or 0 t counts + 1)) counts, ==_iff t topic)

-- From any state, the writes of a topic that the snapshots report and those still counted are
-- together the ones counted at first and the writes since: a snapshot loses none and repeats none
-- (the counters are 64-bit, so the sums are equal modulo 2^64).
pub run-written :
    (topic : String) (ops : List Op) (s : StatsManager)
    → u64 (total (written topic) (run ops s).1 + get_or 0 topic (run ops s).0.writer_counts)
      ≡ u64 (get_or 0 topic s.writer_counts + writes topic ops)
unfolding run inc_ipc_in inc_ipc_out inc_writer_count inc_reader_count set_writer_matched_count
    set_reader_matched_count set_entity_snapshot snapshot_and_reset_counts lookup
run-written topic [] s = omega arith
run-written topic (ipc_in ∷ ops) s = run-written topic ops (inc_ipc_in s)
run-written topic (ipc_out ∷ ops) s = run-written topic ops (inc_ipc_out s)
run-written topic (wrote t ∷ ops) s =
    ground
      (arith, run-written topic ops (inc_writer_count t s), get_or-raise topic t s.writer_counts)
run-written topic (took t ∷ ops) s = run-written topic ops (inc_reader_count t s)
run-written topic (writer_matched t n ∷ ops) s =
    run-written topic ops (set_writer_matched_count t n s)
run-written topic (reader_matched t n ∷ ops) s =
    run-written topic ops (set_reader_matched_count t n s)
run-written topic (entity_snapshot counts ∷ ops) s =
    run-written topic ops (set_entity_snapshot counts s)
run-written topic (snapshot now ∷ ops) s =
    omega (arith, run-written topic ops (snapshot_and_reset_counts now s).0)

-- From any state, the requests that the snapshots report and those still counted are together the
-- ones counted at first and the requests since, modulo 2^64.
pub run-requests :
    (ops : List Op) (s : StatsManager)
    → u64 (total (λ t. t.ipc_in) (run ops s).1 + (run ops s).0.ipc_in)
      ≡ u64 (s.ipc_in + requests ops)
unfolding run inc_ipc_in inc_ipc_out inc_writer_count inc_reader_count set_writer_matched_count
    set_reader_matched_count set_entity_snapshot snapshot_and_reset_counts
run-requests [] s = omega arith
run-requests (ipc_in ∷ ops) s = omega (arith, run-requests ops (inc_ipc_in s))
run-requests (ipc_out ∷ ops) s = run-requests ops (inc_ipc_out s)
run-requests (wrote t ∷ ops) s = run-requests ops (inc_writer_count t s)
run-requests (took t ∷ ops) s = run-requests ops (inc_reader_count t s)
run-requests (writer_matched t n ∷ ops) s = run-requests ops (set_writer_matched_count t n s)
run-requests (reader_matched t n ∷ ops) s = run-requests ops (set_reader_matched_count t n s)
run-requests (entity_snapshot counts ∷ ops) s = run-requests ops (set_entity_snapshot counts s)
run-requests (snapshot now ∷ ops) s =
    omega (arith, run-requests ops (snapshot_and_reset_counts now s).0)

-- The scheduler wakes up at the next full minute: after the present second, at most 60 seconds
-- later, at a multiple of 60.
pub next_epoch_secs-minute :
    (now : ℕ)
    → (now < next_epoch_secs now)
      × (next_epoch_secs now ≤ now + 60)
      × (next_epoch_secs now % 60 ≡ 0)
unfolding next_epoch_secs
next_epoch_secs-minute now = (omega arith, omega arith, omega arith)
