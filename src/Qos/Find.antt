-- ===== src/Qos/Find.antt =====
-- `resolve_from_providers` and `find_or_reload` of RtpDdsGateway/src/qos_store.cpp. The shared
-- lock between the steps is left out: one call runs alone.
pub mod Laws
use connext_triad.Prelude.{
  ℕ, ◌+◌, Option, none, some, List, ◌∷◌, [], ◌++◌, Bool, true, false, lookup, insert, ◌==◌, nat_eq,
  if◌then◌else◌,
}
use connext_triad.Xml.Text.{Bytes, codes, bytes_eq}
use connext_triad.Qos.Store.{
  Platform, key, contains, QosPack, ProviderEntry, QosStore, pack_of, u64,
}
use connext_triad.Qos.Load.{file_profiles, reload_all}

abbrev pub dynamic_origin : Bytes
dynamic_origin = codes "(dynamic)"

module _ (platform : Platform) where
  open platform use {Disk}

  -- A changed file is parsed again; its provider stays.
  abbrev reparse : Disk → ℕ → ProviderEntry platform → ProviderEntry platform
  reparse disk now pe = record pe { profiles = file_profiles platform disk pe.path; mtime = now }

  -- `maybe_present` for a name that is not in the known list.
  unfoldable pub look_again : Disk → Bytes → ProviderEntry platform → ProviderEntry platform × Bool
  look_again disk combined pe = elim (platform.write_time pe.path disk) [
    | none ↦ (pe, false)
    | some now ↦
        if now == pe.mtime
        then (pe, false)
        else (reparse disk now pe, contains combined (reparse disk now pe).profiles)
  ]

  unfoldable pub maybe_present :
      Disk → Bytes → ProviderEntry platform → ProviderEntry platform × Bool
  unfolding look_again
  maybe_present disk combined pe =
      if contains combined pe.profiles then (pe, true) else look_again disk combined pe

  -- One round of the loop over the providers.
  unfoldable pub resolve_entry :
      Disk → Bytes → ProviderEntry platform → ProviderEntry platform × Option (QosPack platform)
  unfolding maybe_present
  resolve_entry disk combined pe =
      let (pe', present) = maybe_present disk combined pe in
      (pe', if present then pack_of platform pe'.provider combined pe'.path else none)

  -- From the last provider to the first, up to the one that has the profile.
  unfoldable pub resolve :
      Disk
      → Bytes
      → List (ProviderEntry platform)
      → List (ProviderEntry platform) × Option (QosPack platform)
  unfolding resolve_entry
  resolve disk combined [] = ([], none)
  resolve disk combined (pe ∷ rest) =
      let (rest', found) = resolve disk combined rest in
      elim found [
        | some pack ↦ (pe ∷ rest', some pack)
        | none ↦ let (pe', tried) = resolve_entry disk combined pe in (pe' ∷ rest', tried)
      ]

  unfoldable pub resolve_from_providers :
      Disk → Bytes → Bytes → QosStore platform → QosStore platform × Option (QosPack platform)
  unfolding resolve
  resolve_from_providers disk lib profile s =
      let (providers, found) = resolve disk (key lib profile) s.providers in
      (record s { providers = providers }, found)

  unfoldable pub find_dynamic : Bytes → Bytes → QosStore platform → Option (QosPack platform)
  find_dynamic lib profile s = elim (lookup lib s.dynamic_providers) [
    | none ↦ none
    | some provider ↦ pack_of platform provider (key lib profile) dynamic_origin
  ]

  -- `cache_[k] = …`
  abbrev pub remember : Bytes → Bytes → QosPack platform → QosStore platform → QosStore platform
  remember lib profile pack s = record s { cache = insert (key lib profile) pack s.cache }

  -- Step 4: after `reload_all`, the cache is cleared again, and the version raised again, where the
  -- profile is found.
  unfoldable pub keep_reloaded :
      Bytes
      → Bytes
      → QosStore platform × Option (QosPack platform)
      → QosStore platform × Option (QosPack platform)
  keep_reloaded lib profile (s, none) = (s, none)
  keep_reloaded lib profile (s, some pack) = (
    remember lib profile pack (record s { cache = []; cache_version = u64 (s.cache_version + 1) }),
    some pack,
  )

  unfoldable pub find_reloaded :
      Disk → Bytes → Bytes → QosStore platform → QosStore platform × Option (QosPack platform)
  unfolding resolve_from_providers keep_reloaded
  find_reloaded disk lib profile s =
      keep_reloaded lib profile
        (resolve_from_providers disk lib profile (reload_all platform disk s))

  -- Step 3: the providers of files.
  unfoldable pub keep_found :
      Disk
      → Bytes
      → Bytes
      → QosStore platform × Option (QosPack platform)
      → QosStore platform × Option (QosPack platform)
  unfolding find_reloaded
  keep_found disk lib profile (s, none) = find_reloaded disk lib profile s
  keep_found disk lib profile (s, some pack) = (remember lib profile pack s, some pack)

  unfoldable pub find_in_files :
      Disk → Bytes → Bytes → QosStore platform → QosStore platform × Option (QosPack platform)
  unfolding resolve_from_providers keep_found
  find_in_files disk lib profile s =
      keep_found disk lib profile (resolve_from_providers disk lib profile s)

  -- Steps 1 and 2: the cache, and the dynamic provider of the library.
  unfoldable pub find_or_reload :
      Disk → Bytes → Bytes → QosStore platform → QosStore platform × Option (QosPack platform)
  unfolding find_dynamic find_in_files
  find_or_reload disk lib profile s = elim (lookup (key lib profile) s.cache) [
    | some pack ↦ (s, some pack)
    | none ↦ elim (find_dynamic lib profile s) [
      | some pack ↦ (remember lib profile pack s, some pack)
      | none ↦ find_in_files disk lib profile s
    ]
  ]
