-- ===== src/Dds/Samples.antt =====
-- RtpDdsGateway/src/sample_factory.cpp and RtpDdsGateway/src/sample_guard.cpp: the making of
-- samples and the scope that owns one. The tables of `idlmeta`, which the build generates, the JSON
-- library and the writers behind the holders are parameters.
use connext_triad.Prelude.{ℕ, String, Bool, false, Option, none, some}
use connext_triad.Dds.External.{Done}
use connext_triad.Dds.Monad.{M}

-- An entry of `idlmeta::type_registry()`: a sample is a handle, and `none` the null pointer.
pub record TypeEntry (World : Type 0) : Type 0 where
  pub create : World → Option ℕ × World
  pub destroy : ℕ → World → World

pub record Samples (World : Type 0) : Type 1 where
  pub Json : Type 0
  pub is_object : Json → Bool
  pub dump_error : Json → Option String
  pub type_registry : String → Option (TypeEntry World)
  pub json_registry : String → Option (Json → ℕ → World → Bool × World)
  pub write_any : ℕ → ℕ → World → Done × World

module _ {World : Type 0} (samples : Samples World) where
  -- The three functions by what they find in the table.
  abbrev pub create_by : Option (TypeEntry World) → World → Option ℕ × World
  create_by none w = (none, w)
  create_by (some entry) w = entry.create w

  -- The pointer is not null wherever this is called.
  abbrev pub destroy_by : Option (TypeEntry World) → ℕ → World → World
  destroy_by none s w = w
  destroy_by (some entry) s w = entry.destroy s w

  abbrev pub convert_by :
      Option (samples.Json → ℕ → World → Bool × World) → samples.Json → ℕ → World → Bool × World
  convert_by none j s w = (false, w)
  convert_by (some from_json) j s w = from_json j s w

  unfoldable pub create_sample : String → World → Option ℕ × World
  create_sample type_name = create_by (samples.type_registry type_name)

  unfoldable pub destroy_sample : String → ℕ → World → World
  destroy_sample type_name = destroy_by (samples.type_registry type_name)

  unfoldable pub json_to_dds : samples.Json → String → ℕ → World → Bool × World
  json_to_dds j type_name = convert_by (samples.json_registry type_name) j

  -- A block with a `SampleGuard`: `~SampleGuard` runs however the block is left.
  unfoldable pub guarded : {A : Type 0} → String → ℕ → M World A → M World A
  guarded type_name s body m =
      let (r, m') = body m in (r, record m' { world = destroy_sample type_name s m'.world })

  -- `if (!sample_guard)` leaves with `no_sample`, and the block goes on otherwise.
  abbrev pub scope : {A : Type 0} → String → M World A → (ℕ → M World A) → Option ℕ → M World A
  scope type_name no_sample body none m = no_sample m
  scope type_name no_sample body (some s) m = guarded type_name s (body s) m

  unfoldable pub with_sample : {A : Type 0} → String → M World A → (ℕ → M World A) → M World A
  unfolding create_sample
  with_sample type_name no_sample body m =
      let (made, w) = create_sample type_name m.world in
      scope type_name no_sample body made (record m { world = w })
