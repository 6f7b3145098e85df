-- ===== src/Holders/Writer.antt =====
-- `WriterHolder` of RtpDdsGateway/include/dds_type_registry.hpp. The holder is made with a writer, so
-- its pointer is not null; log lines are left out.
use connext_triad.Prelude.{
  ℕ, ℤ, pos, negsuc, ◌+◌, ◌-◌, ◌%◌, ◌^◌, String, Bool, true, false, none, some, ◌==◌, string_eq,
  if◌then◌else◌,
}
use Prim.Native.String.{◌++◌}
use connext_triad.Stats.{StatsManager, inc_writer_count, set_writer_matched_count}
use connext_triad.Holders.Data.{
  Thrown, bad_cast, invalid_argument, runtime_error, other, Result, result, thrown, AnyData, empty,
  pointer, shared, unrelated, Mask, no_status, only, ◌∪◌, publication_matched,
  offered_incompatible_qos, liveliness_lost,
}

-- The calls of a `DataWriter<T>` and of its type support. `pointee` reads a `T` at an address; a
-- status call gives the number that the holder reads.
pub record WriterLib (World T : Type 0) : Type 0 where
  pub type_name : String
  pub bad_any_cast : String
  pub pointee : ℕ → World → T
  pub topic : World → String
  pub write : T → World → Result (Unit {0}) × World
  pub publication_matched_status : World → Result ℤ × World
  pub offered_incompatible_qos_status : World → Result ℤ × World
  pub liveliness_lost_status : World → Result ℤ × World
  pub set_listener : Bool → Mask → World → Result (Unit {0}) × World

-- `guarded` is whether `writer_holder_guard` keeps a listener.
pub record WriterHolder : Type 0 where
  pub topic_name : String
  pub guarded : Bool

-- What a holder's calls change besides the holder.
pub record Counting (World : Type 0) : Type 0 where
  pub stats : StatsManager
  pub world : World

-- `static_cast<uint32_t>` of an `int32_t`.
abbrev pub to_u32 : ℤ → ℕ
to_u32 (pos n) = n % 2 ^ 32
to_u32 (negsuc n) = (2 ^ 32 - (n + 1) % 2 ^ 32) % 2 ^ 32

module _ {World T : Type 0} (lib : WriterLib World T) where
  open lib use {
    type_name, bad_any_cast, pointee, topic, write, publication_matched_status,
    offered_incompatible_qos_status, liveliness_lost_status, set_listener,
  }

  unfoldable pub create : String → World → WriterHolder
  create t_name w = record {
    topic_name = if t_name == "" then topic w else t_name;
    guarded = false;
  }

  -- The destructor: an exception is ignored.
  unfoldable pub destroy : WriterHolder → World → World
  destroy h w = (set_listener false no_status w).1

  -- The address in the data, or the exception.
  unfoldable pub extract : AnyData → Result ℕ
  extract empty = thrown (invalid_argument "WriterHolder: data is empty")
  extract (pointer none) = thrown (invalid_argument "WriterHolder: extracted data is null")
  extract (pointer (some address)) = result address
  extract (shared slot) = thrown (bad_cast bad_any_cast)
  extract unrelated = thrown (bad_cast bad_any_cast)

  -- The two `catch` clauses of `write_any`.
  unfoldable pub rethrow : Thrown → Thrown
  rethrow (bad_cast what) =
      runtime_error ("WriterHolder: bad_cast for type " ++ type_name ++ ": " ++ what)
  rethrow (invalid_argument what) = invalid_argument what
  rethrow (runtime_error what) = runtime_error what
  rethrow (other what) = other what

  unfoldable pub write_any :
      WriterHolder → AnyData → Counting World → Result (Unit {0}) × Counting World
  unfolding extract rethrow
  write_any h any_value s = elim (extract any_value) [
    | thrown e ↦ (thrown (rethrow e), s)
    | result address ↦
        let (written, w) = write (pointee address s.world) s.world in
        elim written [
          | thrown e ↦ (thrown (rethrow e), record s { world = w })
          | result _ ↦
              (result tt, record s { stats = inc_writer_count h.topic_name s.stats; world = w })
        ]
  ]

  -- The three blocks of `process_status`, each of which may throw.
  unfoldable pub process_matched :
      WriterHolder → Mask → Counting World → Result (Unit {0}) × Counting World
  process_matched h mask s = elim (mask publication_matched) [
    | false ↦ (result tt, s)
    | true ↦
        let (status, w) = publication_matched_status s.world in
        elim status [
          | thrown e ↦ (thrown e, record s { world = w })
          | result current ↦ (
            result tt,
            record s {
              stats = set_writer_matched_count h.topic_name (to_u32 current) s.stats;
              world = w;
            },
          )
        ]
  ]

  -- A block that only logs what it reads.
  unfoldable pub process_logged :
      Bool → (World → Result ℤ × World) → Counting World → Result (Unit {0}) × Counting World
  process_logged changed status s = elim changed [
    | false ↦ (result tt, s)
    | true ↦
        let (got, w) = status s.world in
        elim got [
          | thrown e ↦ (thrown e, record s { world = w })
          | result _ ↦ (result tt, record s { world = w })
        ]
  ]

  unfoldable pub process_status :
      WriterHolder → Mask → Counting World → Result (Unit {0}) × Counting World
  unfolding process_matched process_logged
  process_status h mask s =
      let (first, s1) = process_matched h mask s in
      elim first [
        | thrown e ↦ (thrown e, s1)
        | result _ ↦
            let (second, s2) =
              process_logged (mask offered_incompatible_qos) offered_incompatible_qos_status s1 in
            elim second [
              | thrown e ↦ (thrown e, s2)
              | result _ ↦ process_logged (mask liveliness_lost) liveliness_lost_status s2
            ]
      ]

  abbrev pub writer_mask : Mask
  writer_mask = only publication_matched ∪ only offered_incompatible_qos ∪ only liveliness_lost

  unfoldable pub enable_listener_mode :
      Bool → WriterHolder → World → Result (Unit {0}) × WriterHolder × World
  enable_listener_mode false h w = (result tt, h, w)
  enable_listener_mode true h w =
      let (set, w') = set_listener true writer_mask w in (set, record h { guarded = true }, w')

  unfoldable pub writer_holder_listener :
      String → WriterHolder → World → Result (Unit {0}) × WriterHolder × World
  unfolding enable_listener_mode
  writer_holder_listener t h w =
      enable_listener_mode true (if h.topic_name == "" then record h { topic_name = t } else h) w
