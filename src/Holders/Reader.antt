-- ===== src/Holders/Reader.antt =====
-- `ReaderHolder` of RtpDdsGateway/include/dds_type_registry.hpp. The holder is made with a reader, so
-- its pointer is not null; log lines are left out.
use connext_triad.Prelude.{
  ℕ, ◌+◌, ℤ, String, Bool, true, false, not, Option, none, some, List, [], ◌∷◌, ◌++◌, length, set,
  ltb, ◌==◌, string_eq, if◌then◌else◌,
}
use connext_triad.Stats.{StatsManager, inc_reader_count, set_reader_matched_count}
use connext_triad.Holders.Data.{
  Thrown, Result, result, thrown, AnyData, shared, Mask, no_status, only, ◌∪◌, subscription_matched,
  requested_incompatible_qos, sample_lost, data_available,
}
use connext_triad.Holders.Writer.{to_u32}

-- A loaned sample: whether it has data, and the data.
pub record Loan (T : Type 0) : Type 0 where
  pub valid : Bool
  pub value : T

pub data Enabling : Type 0 where
  enabled already_closed : Enabling
  not_enabled : Thrown → Enabling

-- The calls of a `DataReader<T>` and of its type support.
pub record ReaderLib (World T : Type 0) : Type 0 where
  pub type_name : String
  pub topic_description : World → Result String
  pub take : World → Result (List (Loan T)) × World
  pub enable : World → Enabling × World
  pub subscription_matched_status : World → Result ℤ × World
  pub requested_incompatible_qos_status : World → Result ℤ × World
  pub sample_lost_status : World → Result ℤ × World
  pub set_listener : Bool → Mask → World → Result (Unit {0}) × World

abbrev pub SampleCallback : Type 0 → Type 0
SampleCallback World = String → String → AnyData → World → Result (Unit {0}) × World

-- `guarded` is whether `listener_guard` keeps a listener.
pub record ReaderHolder (World : Type 0) : Type 0 where
  pub topic_name : String
  pub sample_callback : Option (SampleCallback World)
  pub guarded : Bool
  pub current_mask : Mask

-- What a holder's calls change besides the holder. `sample_pool` and `pool_index` belong to the
-- type and the thread; an object of the pool is named by its slot, which it keeps.
pub record Reading (World T : Type 0) : Type 0 where
  pub stats : StatsManager
  pub sample_pool : List T
  pub pool_index : ℕ
  pub world : World

module _ {World T : Type 0} (lib : ReaderLib World T) where
  open lib use {
    type_name, topic_description, take, enable, subscription_matched_status,
    requested_incompatible_qos_status, sample_lost_status, set_listener,
  }

  unfoldable pub create : World → ReaderHolder World
  create w = record {
    topic_name = elim (topic_description w) [ result t ↦ t | thrown e ↦ "" ];
    sample_callback = none;
    guarded = false;
    current_mask = no_status;
  }

  -- The destructor: an exception is ignored.
  unfoldable pub destroy : ReaderHolder World → World → World
  destroy h w = (set_listener false no_status w).1

  -- An object of the pool with the sample in it: one that is there already, or a new one.
  unfoldable pub claim : T → Reading World T → ℕ × Reading World T
  claim value s =
      if ltb s.pool_index (length s.sample_pool)
      then (
        s.pool_index,
        record s {
          sample_pool = set s.sample_pool s.pool_index value;
          pool_index = s.pool_index + 1;
        },
      )
      else (
        length s.sample_pool,
        record s { sample_pool = s.sample_pool ++ value ∷ []; pool_index = s.pool_index + 1 },
      )

  -- One valid sample: it is counted, put into an object of the pool and given to the callback.
  unfoldable pub hand_over :
      ReaderHolder World
      → SampleCallback World
      → T
      → Reading World T
      → Result (Unit {0}) × Reading World T
  hand_over h callback value s =
      let (slot, s') = claim value (record s { stats = inc_reader_count h.topic_name s.stats }) in
      let (r, w) = callback h.topic_name type_name (shared slot) s'.world in
      (r, record s' { world = w })

  -- The loop over the samples, which an exception of the callback leaves.
  unfoldable pub deliver :
      ReaderHolder World
      → SampleCallback World
      → List (Loan T)
      → Reading World T
      → Result (Unit {0}) × Reading World T
  deliver h callback [] s = (result tt, s)
  deliver h callback (sample ∷ samples) s = elim sample.valid [
    | false ↦ deliver h callback samples s
    | true ↦
        let (r, s') = hand_over h callback sample.value s in
        elim r [ result _ ↦ deliver h callback samples s' | thrown e ↦ (thrown e, s') ]
  ]

  -- `pool_index = 0`, which is not reached when an exception leaves the loop.
  unfoldable pub reset_index :
      Result (Unit {0}) × Reading World T → Result (Unit {0}) × Reading World T
  reset_index (result _, s) = (result tt, record s { pool_index = 0 })
  reset_index (thrown e, s) = (thrown e, s)

  unfoldable pub process_data :
      ReaderHolder World → Reading World T → Result (Unit {0}) × Reading World T
  process_data h s = elim h.sample_callback [
    | none ↦ (result tt, s)
    | some callback ↦
        let (taken, w) = take s.world in
        elim taken [
          | thrown e ↦ (thrown e, record s { world = w })
          | result samples ↦ reset_index (deliver h callback samples (record s { world = w }))
        ]
  ]

  -- The three blocks of `process_status`, each of which may throw.
  unfoldable pub process_matched :
      ReaderHolder World → Mask → Reading World T → Result (Unit {0}) × Reading World T
  process_matched h mask s = elim (mask subscription_matched) [
    | false ↦ (result tt, s)
    | true ↦
        let (status, w) = subscription_matched_status s.world in
        elim status [
          | thrown e ↦ (thrown e, record s { world = w })
          | result current ↦ (
            result tt,
            record s {
              stats = set_reader_matched_count h.topic_name (to_u32 current) s.stats;
              world = w;
            },
          )
        ]
  ]

  -- A block that only logs what it reads.
  unfoldable pub process_logged :
      Bool → (World → Result ℤ × World) → Reading World T → Result (Unit {0}) × Reading World T
  process_logged changed status s = elim changed [
    | false ↦ (result tt, s)
    | true ↦
        let (got, w) = status s.world in
        elim got [
          | thrown e ↦ (thrown e, record s { world = w })
          | result _ ↦ (result tt, record s { world = w })
        ]
  ]

  unfoldable pub process_status :
      ReaderHolder World → Mask → Reading World T → Result (Unit {0}) × Reading World T
  unfolding process_matched process_logged
  process_status h mask s =
      let (first, s1) = process_matched h mask s in
      elim first [
        | thrown e ↦ (thrown e, s1)
        | result _ ↦
            let (second, s2) =
              process_logged (mask requested_incompatible_qos) requested_incompatible_qos_status
                s1 in
            elim second [
              | thrown e ↦ (thrown e, s2)
              | result _ ↦ process_logged (mask sample_lost) sample_lost_status s2
            ]
      ]

  unfoldable pub enable_listener_mode :
      Bool → ReaderHolder World → World → Result (Unit {0}) × ReaderHolder World × World
  enable_listener_mode false h w = (result tt, h, w)
  enable_listener_mode true h w =
      let (r, w') = set_listener true h.current_mask w in (r, record h { guarded = true }, w')

  abbrev pub status_mask : Mask
  status_mask = only subscription_matched ∪ only requested_incompatible_qos ∪ only sample_lost

  -- The name for the listener: the argument, the one kept, or the one of the reader.
  unfoldable pub choose_topic : String → ReaderHolder World → World → Option String
  choose_topic t h w =
      if not (t == "")
      then some t
      else if h.topic_name == ""
      then elim (topic_description w) [ result name ↦ some name | thrown e ↦ none ]
      else some h.topic_name

  -- `enable_listener_mode(true)` and the listener that is returned.
  unfoldable pub install : ReaderHolder World → World → Result Bool × ReaderHolder World × World
  unfolding enable_listener_mode
  install h w =
      let (set, h', w') = enable_listener_mode true h w in
      (elim set [ result _ ↦ result h'.guarded | thrown e ↦ thrown e ], h', w')

  -- The value is whether a listener is returned; an empty name skips the registration.
  unfoldable pub reader_holder_listener :
      String → Bool → ReaderHolder World → World → Result Bool × ReaderHolder World × World
  unfolding choose_topic install
  reader_holder_listener t enable_data h w = elim (choose_topic t h w) [
    | none ↦ (result false, h, w)
    | some name ↦
        let h1 = record h { topic_name = name } in
        let (r, w1) = enable w in
        let mask = if enable_data then status_mask ∪ only data_available else status_mask in
        let listening = install (record h1 { current_mask = mask }) w1 in
        elim r [
          | enabled ↦ listening
          | already_closed ↦ listening
          | not_enabled e ↦ (thrown e, h1, w1)
        ]
  ]

  -- The listener, if there is one, is set again for the new mask.
  unfoldable pub apply_mask :
      ReaderHolder World → World → Result (Unit {0}) × ReaderHolder World × World
  apply_mask h w = elim h.guarded [
    | false ↦ (result tt, h, w)
    | true ↦ let (r, w') = set_listener true h.current_mask w in (r, h, w')
  ]

  unfoldable pub set_sample_callback :
      Option (SampleCallback World)
      → ReaderHolder World
      → World
      → Result (Unit {0}) × ReaderHolder World × World
  unfolding apply_mask
  set_sample_callback callback h w =
      let mask = h.current_mask ∪ only data_available in
      let h1 = record h { sample_callback = callback } in
      let h2 = record h1 { current_mask = mask } in
      if h.current_mask data_available then (result tt, h1, w) else apply_mask h2 w
