-- ===== src/Stats/Matched.antt =====
-- What a snapshot says of the matched endpoints.
use connext_triad.Prelude.{
  String, false, List, [], ◌∷◌, lookup, ◌==◌, string_eq, ◌≡◌, refl, arith, lookup-insert, none,
}
use connext_triad.Stats.{
  StatsManager, u32, Op, ipc_in, ipc_out, wrote, took, writer_matched, reader_matched,
  entity_snapshot, snapshot, run, inc_ipc_in, inc_ipc_out, inc_writer_count, inc_reader_count,
  set_writer_matched_count, set_reader_matched_count, set_entity_snapshot,
  snapshot_and_reset_counts,
}
use connext_triad.Stats.Output.{matched_of}

-- The matches of the topic's writer do not change.
abbrev pub Unmatched : String → List Op → Type 0
Unmatched topic [] = Unit
Unmatched topic (writer_matched t n ∷ ops) = ((t == topic) ≡ false) × Unmatched topic ops
Unmatched topic (ipc_in ∷ ops) = Unmatched topic ops
Unmatched topic (ipc_out ∷ ops) = Unmatched topic ops
Unmatched topic (wrote t ∷ ops) = Unmatched topic ops
Unmatched topic (took t ∷ ops) = Unmatched topic ops
Unmatched topic (reader_matched t n ∷ ops) = Unmatched topic ops
Unmatched topic (entity_snapshot counts ∷ ops) = Unmatched topic ops
Unmatched topic (snapshot now ∷ ops) = Unmatched topic ops

run-Unmatched :
    (topic : String) (ops : List Op) (s : StatsManager)
    → Unmatched topic ops
    → lookup topic s.writer_matched ≡ none
    → lookup topic (run ops s).0.writer_matched ≡ none
unfolding run inc_ipc_in inc_ipc_out inc_writer_count inc_reader_count set_writer_matched_count
    set_reader_matched_count set_entity_snapshot snapshot_and_reset_counts lookup
run-Unmatched topic [] s u h = h
run-Unmatched topic (ipc_in ∷ ops) s u h = run-Unmatched topic ops (inc_ipc_in s) u h
run-Unmatched topic (ipc_out ∷ ops) s u h = run-Unmatched topic ops (inc_ipc_out s) u h
run-Unmatched topic (wrote t ∷ ops) s u h = run-Unmatched topic ops (inc_writer_count t s) u h
run-Unmatched topic (took t ∷ ops) s u h = run-Unmatched topic ops (inc_reader_count t s) u h
run-Unmatched topic (reader_matched t n ∷ ops) s u h =
    run-Unmatched topic ops (set_reader_matched_count t n s) u h
run-Unmatched topic (entity_snapshot counts ∷ ops) s u h =
    run-Unmatched topic ops (set_entity_snapshot counts s) u h
run-Unmatched topic (snapshot now ∷ ops) s u h =
    run-Unmatched topic ops (snapshot_and_reset_counts now s).0 u refl
run-Unmatched topic (writer_matched t n ∷ ops) s u h =
    run-Unmatched topic ops (set_writer_matched_count t n s) u.1
      (ground (arith, lookup-insert t topic (u32 n) s.writer_matched, u.0, h))

-- However many endpoints are matched with the writer of a topic: once a snapshot has been taken, and
-- as long as its matches do not change, every later snapshot reports that it has none.
pub run-matched_of :
    (topic now later : String) (ops : List Op) (s : StatsManager)
    → Unmatched topic ops
    → matched_of topic
        (snapshot_and_reset_counts later
          (run ops (snapshot_and_reset_counts now s).0).0).1.writer_matched
      ≡ 0
unfolding matched_of snapshot_and_reset_counts lookup
run-matched_of topic now later ops s u =
    ground (arith, run-Unmatched topic ops (snapshot_and_reset_counts now s).0 u refl)
