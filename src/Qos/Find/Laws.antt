-- ===== src/Qos/Find/Laws.antt =====
-- A profile that is found is found again, and where its pack comes from.
use connext_triad.Prelude.{
  ◌≡◌, refl, subst, Option, none, some, [], lookup, lookup-insert_self, nat_eq,
}
use connext_triad.Xml.Text.{Bytes, bytes_eq}
use connext_triad.Qos.Store.{Platform, key, QosPack, QosStore}
use connext_triad.Qos.Find.{
  find_dynamic, remember, find_reloaded, find_in_files, keep_reloaded, keep_found, find_or_reload,
}

module _ (platform : Platform) where
  open platform use {Provider, Disk}

  abbrev Found : Type 0
  Found = QosStore platform × Option (QosPack platform)

  -- What was found is in the cache.
  abbrev IsCached : Bytes → Found → Type 0
  IsCached k (s, none) = Unit {0}
  IsCached k (s, some pack) = lookup k s.cache ≡ some pack

  keep_reloaded-IsCached :
      (lib profile : Bytes) (r : Found)
      → IsCached (key lib profile) (keep_reloaded platform lib profile r)
  unfolding keep_reloaded
  keep_reloaded-IsCached lib profile (s, none) = tt
  keep_reloaded-IsCached lib profile (s, some pack) = lookup-insert_self (key lib profile) pack []

  keep_found-IsCached :
      (disk : Disk) (lib profile : Bytes) (r : Found)
      → IsCached (key lib profile) (keep_found platform disk lib profile r)
  unfolding keep_found find_reloaded
  keep_found-IsCached disk lib profile (s, none) = keep_reloaded-IsCached lib profile _
  keep_found-IsCached disk lib profile (s, some pack) =
      lookup-insert_self (key lib profile) pack s.cache

  find_or_reload-IsCached :
      (disk : Disk) (lib profile : Bytes) (s : QosStore platform)
      → IsCached (key lib profile) (find_or_reload platform disk lib profile s)
  unfolding find_or_reload find_in_files
  find_or_reload-IsCached disk lib profile s =
      by_steps (lookup (key lib profile) s.cache) (find_dynamic platform lib profile s) refl
    where
      by_steps :
          (cached found : Option (QosPack platform))
          → lookup (key lib profile) s.cache ≡ cached
          → IsCached (key lib profile) (elim cached as (λ _. Found) [
            | some pack ↦ (s, some pack)
            | none ↦ elim found as (λ _. Found) [
              | some pack ↦ (remember platform lib profile pack s, some pack)
              | none ↦ find_in_files platform disk lib profile s
            ]
          ])
      by_steps (some pack) found e = e
      by_steps none (some pack) e = lookup-insert_self (key lib profile) pack s.cache
      by_steps none none e = keep_found-IsCached disk lib profile _

  cached_again :
      (disk : Disk) (lib profile : Bytes) (s : QosStore platform) (pack : QosPack platform)
      → lookup (key lib profile) s.cache ≡ some pack
      → find_or_reload platform disk lib profile s ≡ (s, some pack)
  unfolding find_or_reload
  cached_again disk lib profile s pack e = rw (e, find_or_reload) refl

  -- A profile that was found is found again with the same pack, whatever has become of the files
  -- in between, and finding it again leaves the store as it is.
  pub find_or_reload-find_or_reload :
      (disk later : Disk) (lib profile : Bytes) (s s' : QosStore platform) (pack : QosPack platform)
      → find_or_reload platform disk lib profile s ≡ (s', some pack)
      → find_or_reload platform later lib profile s' ≡ (s', some pack)
  find_or_reload-find_or_reload disk later lib profile s s' pack e =
      cached_again later lib profile s' pack
        (subst (IsCached (key lib profile)) e (find_or_reload-IsCached disk lib profile s))
