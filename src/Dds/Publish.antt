-- ===== src/Dds/Publish.antt =====
-- RtpDdsGateway/src/dds_manager_io.cpp: the two forms of `publish_json`. The loops over the maps
-- of writers go in the order of the lists that stand for the maps.
pub mod Balance
pub mod Kept
use connext_triad.Prelude.{
  ℕ, ◌+◌, ℤ, String, Bool, true, false, not, Option, none, some, List, [], ◌∷◌, length, lookup,
  int_eq, string_eq, Map, ◌==◌, nat_eq,
}
use connext_triad.Dds.External.{done, raised}
use connext_triad.Dds.State.{Entry, Holders, Reason, throws, failure, logic, type_of}
use connext_triad.Dds.Monad.{M, ◌>>=◌, ◌>>◌, pure, exit, gets, outside, exit_if}
use connext_triad.Dds.Create.{refuse}
use connext_triad.Dds.Samples.{Samples, json_to_dds, with_sample}

module _ {World : Type 0} (samples : Samples World) where
  -- `for (const auto& entry : entries) entry.holder->write_any(wrapped_sample);`, which an
  -- exception of a writer ends: no holder throws the `bad_cast` that the callers look for.
  unfoldable pub write_entries : ℕ → List Entry → M World (Unit {0})
  write_entries s [] = pure tt
  write_entries s (e ∷ es) = do
    result ← outside (samples.write_any e.holder s)
    elim result [ done ↦ write_entries s es | raised what ↦ exit (throws what) ]

  -- The sample is filled and written to the entries: the number of them, or 0 where the
  -- conversion fails.
  unfoldable pub fill_and_write : samples.Json → String → List Entry → ℕ → M World ℕ
  fill_and_write j type_name es s = do
    converted ← outside (json_to_dds samples j type_name s)
    elim converted [ false ↦ pure 0 | true ↦ write_entries s es >> pure (length es) ]

  -- One publisher's entries for the topic.
  unfoldable pub publish_entries : ℤ → String → samples.Json → List Entry → M World ℕ
  publish_entries d topic j es = do
    found ← gets (type_of d topic)
    elim found [
      | none ↦ pure 0
      | some type_name ↦ with_sample samples type_name (pure 0) (fill_and_write j type_name es)
    ]

  unfoldable pub publish_found : ℤ → String → samples.Json → Option (List Entry) → M World ℕ
  publish_found d topic j none = pure 0
  publish_found d topic j (some es) = publish_entries d topic j es

  unfoldable pub publish_publishers :
      ℤ → String → samples.Json → Map String (Map String (List Entry)) → ℕ → M World ℕ
  publish_publishers d topic j [] total = pure total
  publish_publishers d topic j ((p, topics) ∷ rest) total = do
    written ← publish_found d topic j (lookup topic topics)
    publish_publishers d topic j rest (total + written)

  unfoldable pub publish_domains : String → samples.Json → Holders → ℕ → M World ℕ
  publish_domains topic j [] total = pure total
  publish_domains topic j ((d, names) ∷ rest) total = do
    sum ← publish_publishers d topic j names total
    publish_domains topic j rest sum

  -- `j.dump()` for the log, which may throw.
  unfoldable pub dumped : Option String → M World (Unit {0})
  dumped none = pure tt
  dumped (some what) = exit (throws what)

  unfoldable pub publish_json : String → samples.Json → M World Reason
  publish_json topic j = do
    dumped (samples.dump_error j)
    exit_if (not (samples.is_object j)) (failure logic Reason.payload_not_object)
    writers ← gets (λ m. m.writers)
    total ← publish_domains topic j writers 0
    exit_if (total == 0) (failure logic (Reason.no_writer_for_topic topic))
    pure (Reason.publish_succeeded topic total)

  -- `auto it = map.find(key); if (it == map.end()) return …;`
  unfoldable pub find_or_refuse : {V : Type 0} → Option V → Reason → M World V
  find_or_refuse none missing = refuse missing
  find_or_refuse (some v) missing = pure v

  -- An empty type name counts as none.
  unfoldable pub type_or_refuse : Option String → Reason → M World String
  type_or_refuse none missing = refuse missing
  type_or_refuse (some t) missing = exit_if (t == "") (failure logic missing) >> pure t

  unfoldable pub fill_and_write_at :
      samples.Json → ℤ → String → String → String → List Entry → ℕ → M World Reason
  fill_and_write_at j d pub_name topic type_name es s = do
    converted ← outside (json_to_dds samples j type_name s)
    exit_if (not converted) (failure logic (Reason.conversion_failed type_name))
    write_entries s es
    pure (Reason.publish_succeeded_at d pub_name topic)

  unfoldable pub publish_json_at : ℤ → String → String → samples.Json → M World Reason
  publish_json_at d pub_name topic j = do
    dumped (samples.dump_error j)
    exit_if (not (samples.is_object j)) (failure logic Reason.payload_not_object)
    writers ← gets (λ m. m.writers)
    names ← find_or_refuse (lookup d writers) (Reason.no_domain d)
    topics ← find_or_refuse (lookup pub_name names) (Reason.no_publisher pub_name)
    es ← find_or_refuse (lookup topic topics) (Reason.no_topic topic)
    found ← gets (type_of d topic)
    type_name ← type_or_refuse found (Reason.no_type topic)
    with_sample samples type_name (refuse (Reason.no_sample type_name))
        (fill_and_write_at j d pub_name topic type_name es)
