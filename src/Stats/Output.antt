-- ===== src/Stats/Output.antt =====
-- How RtpDdsGateway/src/stats_manager.cpp writes a snapshot out, in its three formats, and its
-- scheduler. Texts are bytes; the printing of numbers and the JSON library are parameters.
use connext_triad.Prelude.{
  ℕ, pos, String, Bool, true, false, not, Option, none, some, List, [], ◌∷◌, ◌++◌, map, Map, insert,
  get_or, is_empty, ◌==◌, string_eq, ◌&&◌, if◌then◌else◌,
}
use Prim.Native.String as String
use connext_triad.Xml.Text.{Bytes, codes}
use connext_triad.Rpc.Json.{JsonLib}
use connext_triad.Stats.{StatsManager, StatsSnapshot, text, json, csv, snapshot_and_reset_counts}

-- A row of the CSV output without its timestamp.
pub record Row : Type 0 where
  pub metric : Bytes
  pub scope : Bytes
  pub key : Bytes
  pub value : ℕ

abbrev newline : Bytes
newline = 10 ∷ []

-- The matched count of a topic, or 0.
unfoldable pub matched_of : String → Map String ℕ → ℕ
matched_of topic matched = get_or 0 topic matched

unfoldable pub count_rows : Bytes → Bytes → Map String ℕ → Map String ℕ → List Row
count_rows counts matches matched [] = []
count_rows counts matches matched ((topic, n) ∷ m) =
    record { metric = codes "MSG_COUNT"; scope = codes topic; key = counts; value = n }
    ∷ record {
      metric = codes "MSG_COUNT";
      scope = codes topic;
      key = matches;
      value = matched_of topic matched;
    }
    ∷ count_rows counts matches matched m

unfoldable pub entity_row : String → ℕ → Row
entity_row key n = record {
  metric = codes "ENTITY_SNAPSHOT";
  scope = codes "domain=0";
  key = codes key;
  value = n;
}

unfoldable pub ipc_row : String → ℕ → Row
ipc_row key n = record { metric = codes "IPC"; scope = []; key = codes key; value = n }

unfoldable pub csv_rows : StatsSnapshot → List Row
unfolding entity_row ipc_row count_rows
csv_rows s =
    (entity_row "participant_count" s.entities.participants
      ∷ entity_row "publisher_count" s.entities.publishers
      ∷ entity_row "subscriber_count" s.entities.subscribers
      ∷ entity_row "writers_total" s.entities.writers
      ∷ entity_row "readers_total" s.entities.readers
      ∷ entity_row "topics_total" s.entities.topics
      ∷ ipc_row "in" s.ipc_in
      ∷ ipc_row "out" s.ipc_out
      ∷ [])
    ++ (count_rows (codes "writer_writes") (codes "writer_matched") s.writer_matched s.writer_counts
        ++ count_rows (codes "reader_takes") (codes "reader_matched") s.reader_matched
            s.reader_counts)

-- What is logged, what is appended to the file, and the warning if the file does not open.
pub record Outputs : Type 0 where
  pub logged : Bytes
  pub appended : Option Bytes
  pub warned : Bool

module _ (to_string : ℕ → Bytes) (lib : JsonLib) (dump : lib.Json → Bytes) where
  open lib use {Json, object, number}

  unfoldable pub print_row : Bytes → Row → Bytes
  print_row time r =
      time
      ++ codes ","
      ++ r.metric
      ++ codes ","
      ++ r.scope
      ++ codes ","
      ++ r.key
      ++ codes ","
      ++ to_string r.value
      ++ newline

  unfoldable pub print_rows : Bytes → List Row → Bytes
  unfolding print_row
  print_rows time [] = []
  print_rows time (r ∷ rows) = print_row time r ++ print_rows time rows

  unfoldable pub csv_output : StatsSnapshot → Bytes
  unfolding print_rows csv_rows
  csv_output s =
      codes "timestamp,metric,scope,key,value"
      ++ newline
      ++ print_rows (codes s.timestamp) (csv_rows s)

  unfoldable pub print_counts : Map String ℕ → Bytes
  print_counts [] = []
  print_counts ((topic, n) ∷ m) =
      codes "    " ++ codes topic ++ codes " = " ++ to_string n ++ newline ++ print_counts m

  -- A list of counts with its title, if there is any.
  unfoldable pub titled : String → Map String ℕ → Bytes
  unfolding print_counts
  titled title counts =
      if is_empty counts then [] else codes title ++ newline ++ print_counts counts

  unfoldable pub text_output : StatsSnapshot → Bytes
  unfolding titled
  text_output s =
      codes "[STATS] "
      ++ codes s.timestamp
      ++ codes " IPC_IN="
      ++ to_string s.ipc_in
      ++ codes " IPC_OUT="
      ++ to_string s.ipc_out
      ++ codes " PARTICIPANTS="
      ++ to_string s.entities.participants
      ++ codes " PUBLISHERS="
      ++ to_string s.entities.publishers
      ++ codes " SUBSCRIBERS="
      ++ to_string s.entities.subscribers
      ++ codes " WRITERS="
      ++ to_string s.entities.writers
      ++ codes " READERS="
      ++ to_string s.entities.readers
      ++ codes " TOPICS="
      ++ to_string s.entities.topics
      ++ newline
      ++ titled "  WriterCounts:" s.writer_counts
      ++ titled "  ReaderCounts:" s.reader_counts

  -- `msgs[topic][side] = {counts, matched}` for each topic with a count.
  unfoldable pub add_messages :
      String
      → String
      → String
      → Map String ℕ
      → Map String ℕ
      → Map String (Map String Json)
      → Map String (Map String Json)
  unfolding matched_of
  add_messages side counts matches matched [] msgs = msgs
  add_messages side counts matches matched ((topic, n) ∷ m) msgs =
      add_messages side counts matches matched m (
        insert topic
          (insert side
            (object
              ((counts, number (pos n)) ∷ (matches, number (pos (matched_of topic matched))) ∷ []))
            (get_or [] topic msgs))
          msgs)

  unfoldable pub messages : StatsSnapshot → Json
  unfolding add_messages
  messages s = object (
      map (λ topic. (topic.0, object topic.1))
        (add_messages "reader" "reader_takes" "reader_matched" s.reader_matched s.reader_counts (
          add_messages "writer" "writer_writes" "writer_matched" s.writer_matched s.writer_counts
            [])))

  unfoldable pub json_output : StatsSnapshot → Bytes
  unfolding messages
  json_output s = dump (
      object (
        ("timestamp", lib.text s.timestamp)
        ∷ ("ipc", object (("in", number (pos s.ipc_in)) ∷ ("out", number (pos s.ipc_out)) ∷ []))
        ∷ (
          "entities",
          object (
              ("participants", number (pos s.entities.participants))
              ∷ ("publishers", number (pos s.entities.publishers))
              ∷ ("subscribers", number (pos s.entities.subscribers))
              ∷ ("writers", number (pos s.entities.writers))
              ∷ ("readers", number (pos s.entities.readers))
              ∷ ("topics", number (pos s.entities.topics))
              ∷ []),
        )
        ∷ ("messages", messages s)
        ∷ []))

  -- The log line, and the same in the file, if one is wanted and opens.
  unfoldable pub emit : Bytes → Bytes → Bool → StatsManager → Outputs
  emit line in_file opens s =
      if s.file_output && not (s.file_path == "")
      then (if opens
          then record { logged = line; appended = some in_file; warned = false }
          else record { logged = line; appended = none; warned = true })
      else record { logged = line; appended = none; warned = false }

  unfoldable pub output_snapshot : StatsSnapshot → Bool → StatsManager → Outputs
  unfolding text_output csv_output json_output emit
  output_snapshot snap opens s = elim s.format [
    | text ↦ emit (text_output snap) (text_output snap) opens s
    | csv ↦ emit (csv_output snap) (csv_output snap) opens s
    | json ↦ emit (json_output snap) (json_output snap ++ newline) opens s
  ]

  -- What `scheduler_thread` does when it wakes up: `none` if it ends.
  unfoldable pub scheduler_turn : String → Bool → StatsManager → StatsManager × Option Outputs
  unfolding output_snapshot
  scheduler_turn now opens s =
      let (s', snap) = snapshot_and_reset_counts now s in
      if s.running then (s', some (output_snapshot snap opens s')) else (s, none)

abbrev join_path : String → String → String
join_path dir name = String.◌++◌ dir (String.◌++◌ "/" name)

unfoldable pub init : String → String → Bool → StatsManager → StatsManager
init file_dir file_name file_output s =
    if file_output
    then record s { file_output = true; file_path = join_path file_dir file_name }
    else record s { file_output = false }

-- Whether a thread starts.
unfoldable pub start : StatsManager → StatsManager × Bool
start s = if s.running then (s, false) else (record s { running = true }, true)

unfoldable pub stop : StatsManager → StatsManager
stop s = record s { running = false }
