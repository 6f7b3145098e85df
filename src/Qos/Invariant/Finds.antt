-- ===== src/Qos/Invariant/Finds.antt =====
-- Searches keep the store well formed, and what they find has a source.
use connext_triad.Prelude.{
  ◌≡◌, refl, Option, none, some, List, [], ◌∷◌, Bool, true, false, lookup, if◌then◌else◌,
}
use connext_triad.Xml.Text.{Bytes, bytes_eq}
use connext_triad.Qos.Store.{Platform, key, QosPack, ProviderEntry, QosStore, pack_of}
use connext_triad.Qos.Load.{reload_all}
use connext_triad.Qos.Find.{
  maybe_present, resolve_entry, resolve, resolve_from_providers, find_dynamic, remember,
  keep_reloaded, keep_found, find_reloaded, find_in_files, find_or_reload, dynamic_origin,
}
use connext_triad.Qos.Invariant.{
  Source, WellFormed, with_cache-WellFormed, no_cache, insert-sourced,
}

module _ (platform : Platform) where
  open platform use {Provider, Disk}

  abbrev pub IsSourced : Bytes → Option (QosPack platform) → Type 0
  IsSourced k none = Unit {0}
  IsSourced k (some pack) = Source platform k pack

  pack_of-IsSourced :
      (provider : Provider) (k origin : Bytes) → IsSourced k (pack_of platform provider k origin)
  pack_of-IsSourced provider k origin = by_result (pack_of platform provider k origin) refl
    where
      by_result :
          (o : Option (QosPack platform)) → pack_of platform provider k origin ≡ o → IsSourced k o
      by_result none e = tt
      by_result (some pack) e = (provider, origin, e)

  if-IsSourced :
      (b : Bool) (k : Bytes) (o : Option (QosPack platform))
      → IsSourced k o
      → IsSourced k (if b then o else none)
  if-IsSourced true k o h = h
  if-IsSourced false k o h = tt

  resolve_entry-IsSourced :
      (disk : Disk) (k : Bytes) (pe : ProviderEntry platform)
      → IsSourced k (resolve_entry platform disk k pe).1
  unfolding resolve_entry
  resolve_entry-IsSourced disk k pe =
      if-IsSourced (maybe_present platform disk k pe).1 k _ (pack_of-IsSourced _ k _)

  resolve-IsSourced :
      (disk : Disk) (k : Bytes) (l : List (ProviderEntry platform))
      → IsSourced k (resolve platform disk k l).1
  unfolding resolve
  resolve-IsSourced disk k [] = tt
  resolve-IsSourced disk k (pe ∷ rest) =
      by_rest (resolve platform disk k rest) (resolve-IsSourced disk k rest)
        (resolve_entry-IsSourced disk k pe)
    where
      by_rest :
          (r : List (ProviderEntry platform) × Option (QosPack platform))
          → IsSourced k r.1
          → IsSourced k (resolve_entry platform disk k pe).1
          → IsSourced k
              (elim r.1 as (λ _. List (ProviderEntry platform) × Option (QosPack platform)) [
                | some pack ↦ (pe ∷ r.0, some pack)
                | none ↦ let (pe', tried) = resolve_entry platform disk k pe in (pe' ∷ r.0, tried)
              ]).1
      by_rest (l, none) h h' = h'
      by_rest (l, some pack) h h' = h

  -- A search that ends in a well-formed store, with a pack that has a source.
  abbrev pub Ends : Bytes → QosStore platform × Option (QosPack platform) → Type 0
  Ends k (s, found) = WellFormed platform s × IsSourced k found

  resolve_from_providers-Ends :
      (disk : Disk) (lib profile : Bytes) (s : QosStore platform)
      → WellFormed platform s
      → Ends (key lib profile) (resolve_from_providers platform disk lib profile s)
  unfolding resolve_from_providers
  resolve_from_providers-Ends disk lib profile s v = (
    with_cache-WellFormed platform s _ refl refl refl v.sourced v,
    resolve-IsSourced disk (key lib profile) s.providers,
  )

  remember-WellFormed :
      (lib profile : Bytes) (pack : QosPack platform) (s : QosStore platform)
      → Source platform (key lib profile) pack
      → WellFormed platform s
      → WellFormed platform (remember platform lib profile pack s)
  remember-WellFormed lib profile pack s g v =
      with_cache-WellFormed platform s _ refl refl refl
        (insert-sourced platform (key lib profile) pack s.cache g v.sourced) v

  keep_reloaded-Ends :
      (lib profile : Bytes) (r : QosStore platform × Option (QosPack platform))
      → Ends (key lib profile) r
      → Ends (key lib profile) (keep_reloaded platform lib profile r)
  unfolding keep_reloaded
  keep_reloaded-Ends lib profile (s, none) h = h
  keep_reloaded-Ends lib profile (s, some pack) (v, g) = (
    remember-WellFormed lib profile pack _ g
        (with_cache-WellFormed platform s _ refl refl refl (no_cache platform) v),
    g,
  )

  pub reload_all-WellFormed :
      (disk : Disk) (s : QosStore platform)
      → WellFormed platform s
      → WellFormed platform (reload_all platform disk s)
  unfolding reload_all
  reload_all-WellFormed disk s v =
      with_cache-WellFormed platform s _ refl refl refl (no_cache platform) v

  keep_found-Ends :
      (disk : Disk) (lib profile : Bytes) (r : QosStore platform × Option (QosPack platform))
      → Ends (key lib profile) r
      → Ends (key lib profile) (keep_found platform disk lib profile r)
  unfolding keep_found find_reloaded
  keep_found-Ends disk lib profile (s, none) (v, g) =
      keep_reloaded-Ends lib profile _
        (resolve_from_providers-Ends disk lib profile _ (reload_all-WellFormed disk s v))
  keep_found-Ends disk lib profile (s, some pack) (v, g) =
      (remember-WellFormed lib profile pack s g v, g)

  find_dynamic-IsSourced :
      (lib profile : Bytes) (s : QosStore platform)
      → IsSourced (key lib profile) (find_dynamic platform lib profile s)
  unfolding find_dynamic
  find_dynamic-IsSourced lib profile s = by_provider (lookup lib s.dynamic_providers)
    where
      by_provider :
          (o : Option Provider)
          → IsSourced (key lib profile) (elim o as (λ _. Option (QosPack platform)) [
            | none ↦ none
            | some provider ↦ pack_of platform provider (key lib profile) dynamic_origin
          ])
      by_provider none = tt
      by_provider (some provider) = pack_of-IsSourced provider (key lib profile) dynamic_origin

  pub find_or_reload-Ends :
      (disk : Disk) (lib profile : Bytes) (s : QosStore platform)
      → WellFormed platform s
      → Ends (key lib profile) (find_or_reload platform disk lib profile s)
  unfolding find_or_reload find_in_files
  find_or_reload-Ends disk lib profile s v =
      by_steps (lookup (key lib profile) s.cache) (find_dynamic platform lib profile s) refl
        (find_dynamic-IsSourced lib profile s)
    where
      by_steps :
          (cached found : Option (QosPack platform))
          → lookup (key lib profile) s.cache ≡ cached
          → IsSourced (key lib profile) found
          → Ends
              (key lib profile)
              (elim cached as (λ _. QosStore platform × Option (QosPack platform)) [
                | some pack ↦ (s, some pack)
                | none ↦ elim found as (λ _. QosStore platform × Option (QosPack platform)) [
                  | some pack ↦ (remember platform lib profile pack s, some pack)
                  | none ↦ find_in_files platform disk lib profile s
                ]
              ])
      by_steps (some pack) found e g = (v, v.sourced (key lib profile) pack e)
      by_steps none (some pack) e g = (remember-WellFormed lib profile pack s g v, g)
      by_steps none none e g =
          keep_found-Ends disk lib profile _ (resolve_from_providers-Ends disk lib profile s v)
