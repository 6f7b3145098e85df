-- ===== src/Stats/Tests.antt =====
-- The statistics on a concrete sequence of events.
use connext_triad.Prelude.{
  refl, ◌+◌, ◌≡◌, ℕ, ◌++◌, lookup, insert, List, [], ◌∷◌, get_or, string_eq,
}
use connext_triad.Xml.Text.{Bytes, codes}
use connext_triad.Rpc.SmallJson.{small_json}
use connext_triad.Stats.Output.{print_rows, count_rows, matched_of}
use connext_triad.Stats.Matched.{run-matched_of}
use connext_triad.Stats.{
  StatsSnapshot, writer_matched, snapshot_and_reset_counts, set_writer_matched_count, Op, ipc_in,
  wrote, snapshot, run, u64, create,
}
use connext_triad.Stats.Totals.{total, written, writes, run-written}

abbrev events : List Op
events =
    ipc_in
    ∷ wrote "chat"
    ∷ wrote "alarm"
    ∷ snapshot "13:31"
    ∷ wrote "chat"
    ∷ ipc_in
    ∷ snapshot "13:32"
    ∷ wrote "chat"
    ∷ []

run-written_example :
    u64 (
      total (written "chat") (run events create).1
      + get_or 0 "chat" (run events create).0.writer_counts)
    ≡ u64 (get_or 0 "chat" create.writer_counts + writes "chat" events)
run-written_example = run-written "chat" events create

-- Two endpoints stay matched, and the second snapshot reports none.
run-matched_of_example :
    matched_of "chat"
      (snapshot_and_reset_counts "13:32"
        (run
          (wrote "chat" ∷ [])
          (snapshot_and_reset_counts "13:31"
            (set_writer_matched_count "chat" 2 create)).0).0).1.writer_matched
    ≡ 0
run-matched_of_example =
    run-matched_of "chat" "13:31" "13:32" (wrote "chat" ∷ [])
      (set_writer_matched_count "chat" 2 create) tt

abbrev one_digit : ℕ → Bytes
one_digit n = (48 + n) ∷ []

abbrev two_writes : StatsSnapshot
two_writes =
    (snapshot_and_reset_counts "13:31"
      (run (writer_matched "chat" 2 ∷ wrote "chat" ∷ wrote "chat" ∷ []) create).0).1

csv_of_a_topic :
    print_rows one_digit small_json
      (λ j. [])
      (codes "13:31")
      (count_rows
        (codes "writer_writes")
        (codes "writer_matched")
        two_writes.writer_matched
        two_writes.writer_counts)
    ≡ codes "13:31,MSG_COUNT,chat,writer_writes,2"
      ++ (10 ∷ (codes "13:31,MSG_COUNT,chat,writer_matched,2" ++ 10 ∷ []))
unfolding print_rows count_rows run snapshot_and_reset_counts matched_of lookup create insert
csv_of_a_topic = refl
