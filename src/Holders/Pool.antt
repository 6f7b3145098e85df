-- ===== src/Holders/Pool.antt =====
-- What `process_data` delivers, and which objects its callbacks share.
use connext_triad.Prelude.{
  ℕ, zero, suc, ◌+◌, ◌<◌, String, true, false, Option, none, some, ltb, if◌then◌else◌, List, [],
  ◌∷◌, ◌++◌, length, drop, ◌≡◌, refl, ap, ap₂, sym, ◌∙◌, arith, length-append, set-append,
  append_assoc, append-nil, inl, inr, Bool-cases, string_eq, drop-drop_one, get_elem?,
  get_elem?-overwrite,
}
use connext_triad.Stats.{StatsManager, inc_reader_count}
use connext_triad.Holders.Data.{Result, result, AnyData, empty, pointer, shared, unrelated, thrown}
use connext_triad.Holders.Reader.{
  Loan, ReaderLib, SampleCallback, ReaderHolder, Reading, claim, hand_over, deliver, reset_index,
  process_data,
}

module _ {T : Type 0} where
  -- The data of the valid samples, in order.
  abbrev pub values : List (Loan T) → List T
  values [] = []
  values (x ∷ xs) = elim x.valid [ true ↦ x.value ∷ values xs | false ↦ values xs ]

-- The data that a callback gets for `n` samples from slot `first` on.
abbrev pub slots : ℕ → ℕ → List AnyData
slots first zero = []
slots first (suc n) = shared first ∷ slots (first + 1) n

-- `n` calls of `inc_reader_count`.
abbrev pub counted : String → ℕ → StatsManager → StatsManager
counted topic zero s = s
counted topic (suc n) s = counted topic n (inc_reader_count topic s)

-- A callback that keeps what it is given, as one that puts it into a queue does.
abbrev pub Queues : {World : Type 0} → (World → List AnyData) → SampleCallback World → Type 0
Queues {World} queued callback =
    (topic type_name : String) (d : AnyData) (w : World)
    → ((callback topic type_name d w).0 ≡ result tt)
      × (queued (callback topic type_name d w).1 ≡ queued w ++ d ∷ [])

module _ {World T : Type 0} (lib : ReaderLib World T) (queued : World → List AnyData)
    (callback : SampleCallback World) (keeps : Queues queued callback)
    (h : ReaderHolder World) where
  -- The state after the loop over samples with these values, from slot `length front` on.
  pub record Delivered (front rest : List T) (vs : List T) (s : Reading World T)
      (r : Result (Unit {0}) × Reading World T) : Type 0 where
    pub done : r.0 ≡ result tt
    pub pool : r.1.sample_pool ≡ (front ++ vs) ++ drop (length vs) rest
    pub events : queued r.1.world ≡ queued s.world ++ slots (length front) (length vs)
    pub count : r.1.stats ≡ counted h.topic_name (length vs) s.stats

  claimed :
      (front rest : List T) (value : T) (s : Reading World T)
      → s.sample_pool ≡ front ++ rest
      → s.pool_index ≡ length front
      → ((claim lib value s).0 ≡ length front)
        × ((claim lib value s).1.sample_pool ≡ (front ++ value ∷ []) ++ drop 1 rest)
        × ((claim lib value s).1.pool_index ≡ length (front ++ value ∷ []))
        × ((claim lib value s).1.stats ≡ s.stats)
        × ((claim lib value s).1.world ≡ s.world)
  unfolding claim
  claimed front [] value s p i = ground (
    arith,
    length-append {0} front (value ∷ []),
    append-nil {0} front,
    append-nil {0} (front ++ value ∷ []),
  )
  claimed front (x ∷ rest) value s p i = ground (
    arith,
    length-append {0} front (value ∷ []),
    length-append {0} front (x ∷ rest),
    set-append {0} front rest x value,
    append_assoc {0} front (value ∷ []) rest,
  )

  handed :
      (front rest : List T) (value : T) (s : Reading World T)
      → s.sample_pool ≡ front ++ rest
      → s.pool_index ≡ length front
      → Delivered front rest (value ∷ []) s (hand_over lib h callback value s)
        × ((hand_over lib h callback value s).1.pool_index ≡ length (front ++ value ∷ []))
  unfolding hand_over
  handed front rest value s p i =
      let start : Reading World T = record s { stats = inc_reader_count h.topic_name s.stats } in
      let c = claimed front rest value start p i in
      let given =
        keeps h.topic_name lib.type_name (shared (claim lib value start).0)
          (claim lib value start).1.world in
      (
        record {
          done = given.0;
          pool = c.1;
          events = given.1 ∙ ap₂ (λ a b. queued a ++ shared b ∷ []) c.4 c.0;
          count = c.3;
        },
        c.2,
      )

  -- A first sample and the rest of the loop.
  join :
      (front rest : List T) (value : T) (vs : List T) (s : Reading World T)
      (q r : Result (Unit {0}) × Reading World T)
      → Delivered front rest (value ∷ []) s q
      → Delivered (front ++ value ∷ []) (drop 1 rest) vs q.1 r
      → Delivered front rest (value ∷ vs) s r
  join front rest value vs s q r one others = record {
    done = others.done;
    pool = ground (
      arith,
      others.pool,
      append_assoc {0} front (value ∷ []) vs,
      drop-drop_one (length vs) rest,
    );
    events = ground (
      arith,
      others.events,
      one.events,
      length-append {0} front (value ∷ []),
      append_assoc {0} (queued s.world) (shared (length front) ∷ [])
          (slots (length front + 1) (length vs)),
    );
    count = others.count ∙ ap (counted h.topic_name (length vs)) one.count;
  }

  pub deliver-Delivered :
      (front rest : List T) (samples : List (Loan T)) (s : Reading World T)
      → s.sample_pool ≡ front ++ rest
      → s.pool_index ≡ length front
      → Delivered front rest (values samples) s (deliver lib h callback samples s)
  unfolding deliver
  deliver-Delivered front rest [] s p i = record {
    done = refl;
    pool = p ∙ sym (ap (λ xs. xs ++ rest) (append-nil front));
    events = sym (append-nil (queued s.world));
    count = refl;
  }
  deliver-Delivered front rest (x ∷ xs) s p i = elim (Bool-cases x.valid) [
    | inl e ↦
        let one = handed front rest x.value s p i in
        let others =
          deliver-Delivered (front ++ x.value ∷ []) (drop 1 rest) xs
            (hand_over lib h callback x.value s).1 one.0.pool one.1 in
        rw e (
          rw one.0.done (
            join front rest x.value (values xs) s (hand_over lib h callback x.value s)
              (deliver lib h callback xs (hand_over lib h callback x.value s).1) one.0 others))
    | inr e ↦ rw e (deliver-Delivered front rest xs s p i)
  ]

  reset :
      (front rest vs : List T) (s : Reading World T) (r : Result (Unit {0}) × Reading World T)
      → Delivered front rest vs s r
      → Delivered front rest vs s (reset_index lib r) × ((reset_index lib r).1.pool_index ≡ 0)
  unfolding reset_index
  reset front rest vs s (result u, s') d =
      (record { done = d.done; pool = d.pool; events = d.events; count = d.count }, refl)
  reset front rest vs s (thrown e, s') d = absurd (ground (arith, d.done))

  runs :
      (samples : List (Loan T)) (s : Reading World T)
      → h.sample_callback ≡ some callback
      → (lib.take s.world).0 ≡ result samples
      → process_data lib h s
        ≡ reset_index lib
            (deliver lib h callback samples (record s { world = (lib.take s.world).1 }))
  unfolding process_data
  runs samples s hc ht = ground arith

  -- What a whole call does.
  pub processed :
      (samples : List (Loan T)) (s : Reading World T)
      → h.sample_callback ≡ some callback
      → (lib.take s.world).0 ≡ result samples
      → s.pool_index ≡ 0
      → Delivered [] s.sample_pool
          (values samples)
          (record s { world = (lib.take s.world).1 })
          (process_data lib h s)
        × ((process_data lib h s).1.pool_index ≡ 0)
  processed samples s hc ht hi =
      let start : Reading World T = record s { world = (lib.take s.world).1 } in
      let d = deliver-Delivered [] s.sample_pool samples start refl hi in
      rw (runs samples s hc ht)
        (reset [] s.sample_pool (values samples) start (deliver lib h callback samples start) d)

-- The object that the data of an event is.
abbrev pub read : {T : Type 0} → List T → AnyData → Option T
read pool (shared slot) = get_elem? pool slot
read pool empty = none
read pool (pointer p) = none
read pool unrelated = none

module _ {World T : Type 0} (lib : ReaderLib World T) (queued : World → List AnyData)
    (callback : SampleCallback World) (keeps : Queues queued callback) (h : ReaderHolder World)
    (installed : h.sample_callback ≡ some callback) where
  -- If the callback keeps what it is given, a call of process_data that gets samples, at pool index
  -- 0, succeeds and ends at pool index 0; it makes one callback and counts one read for each valid
  -- sample, in order; the i-th callback's data then reads as the i-th valid sample, and the objects
  -- of the pool beyond them are unchanged.
  pub process_data-delivers :
      (samples : List (Loan T)) (s : Reading World T) (i : ℕ)
      → (lib.take s.world).0 ≡ result samples
      → s.pool_index ≡ 0
      → ((process_data lib h s).0 ≡ result tt)
        × ((process_data lib h s).1.pool_index ≡ 0)
        × (queued (process_data lib h s).1.world
            ≡ queued (lib.take s.world).1 ++ slots 0 (length (values samples)))
        × ((process_data lib h s).1.stats ≡ counted h.topic_name (length (values samples)) s.stats)
        × (read (process_data lib h s).1.sample_pool (shared i) ≡ (
            if ltb i (length (values samples))
            then get_elem? (values samples) i
            else read s.sample_pool (shared i)))
  process_data-delivers samples s i ht hi =
      let (d, at_zero) = processed lib queued callback keeps h samples s installed ht hi in
      (
        d.done,
        at_zero,
        d.events,
        d.count,
        ap (λ pool. get_elem? pool i) d.pool ∙ get_elem?-overwrite (values samples) s.sample_pool i,
      )

  -- The objects of the pool are shared: after two such calls, the second with at least i + 1 valid
  -- samples, the data of the i-th callback of the first call reads as the i-th valid sample of the
  -- second call; that of a later callback of the first call still reads as its own sample.
  pub process_data-overwrites :
      (samples samples' : List (Loan T)) (s : Reading World T) (i : ℕ)
      → (lib.take s.world).0 ≡ result samples
      → (lib.take (process_data lib h s).1.world).0 ≡ result samples'
      → s.pool_index ≡ 0
      → i < length (values samples)
      → read (process_data lib h (process_data lib h s).1).1.sample_pool (shared i) ≡ (
          if ltb i (length (values samples'))
          then get_elem? (values samples') i
          else get_elem? (values samples) i)
  process_data-overwrites samples samples' s i ht ht' hi below =
      let first = process_data-delivers samples s i ht hi in
      let second = process_data-delivers samples' (process_data lib h s).1 i ht' first.1 in
      second.4 ∙ ground (arith, first.4)
