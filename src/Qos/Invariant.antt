-- ===== src/Qos/Invariant.antt =====
-- What holds of the store after any sequence of its operations.
pub mod Finds
pub mod Reachable
use connext_triad.Prelude.{
  ◌≡◌, refl, subst, sym, ◌∙◌, ap, arith, Option, none, some, List, [], ◌∷◌, ◌++◌, Bool, true, false,
  lookup, insert, erase, lookup-insert, lookup-erase, ==_iff, if◌then◌else◌, ◌==◌,
}
use connext_triad.Xml.Text.{Bytes, bytes_eq, bytes_beq, bytes_beq_iff}
use connext_triad.Qos.Store.{
  Platform, key, contains, QosPack, ProviderEntry, QosStore, pack_of, create,
}
use connext_triad.Qos.Load.{initialize, reload_all, insert_name}
use connext_triad.Qos.Find.{
  maybe_present, resolve_entry, resolve, resolve_from_providers, find_dynamic, remember,
  keep_reloaded, keep_found, find_reloaded, find_in_files, find_or_reload, dynamic_origin,
}
use connext_triad.Qos.Update.{add_or_update_profile, store_profile, qos_uri}
use connext_triad.Qos.Update.Laws.{Updated, refused, stored, add_or_update_profile-Updated}

module _ (platform : Platform) where
  open platform use {Provider, Disk}

  -- A provider gave the pack under this name.
  abbrev pub Source : Bytes → QosPack platform → Type 0
  Source k pack =
      (provider : Provider) × (origin : Bytes) × (pack_of platform provider k origin ≡ some pack)

  -- Every cached pack is what some provider gave under the name it is cached for; every dynamic
  -- provider was opened on the text that is kept for its library; every dynamic profile belongs to
  -- a library that has a dynamic provider.
  pub record WellFormed (s : QosStore platform) : Type 0 where
    pub sourced :
        (k : Bytes) (pack : QosPack platform) → lookup k s.cache ≡ some pack → Source k pack
    pub backed :
        (lib : Bytes) (provider : Provider)
        → lookup lib s.dynamic_providers ≡ some provider
        → (xml : Bytes) × (disk : Disk) × (lookup lib s.dynamic_libraries ≡ some xml)
          × (platform.open_provider (qos_uri xml) disk ≡ some provider)
    pub indexed :
        (name : Bytes)
        → contains name s.dynamic_profiles_index ≡ true
        → (lib : Bytes) × (profile : Bytes) × (provider : Provider) × (name ≡ key lib profile)
          × (lookup lib s.dynamic_providers ≡ some provider)

  pub create-WellFormed : (dir : Bytes) → WellFormed (create platform dir)
  unfolding create lookup
  create-WellFormed dir = record {
    sourced = λ k pack e. absurd (ground (arith, e));
    backed = λ lib provider e. absurd (ground (arith, e));
    indexed = λ name e. absurd (ground (arith, e));
  }

  -- A changed cache whose packs have sources.
  pub with_cache-WellFormed :
      (s t : QosStore platform)
      → t.dynamic_providers ≡ s.dynamic_providers
      → t.dynamic_libraries ≡ s.dynamic_libraries
      → t.dynamic_profiles_index ≡ s.dynamic_profiles_index
      → ((k : Bytes) (pack : QosPack platform) → lookup k t.cache ≡ some pack → Source k pack)
      → WellFormed s
      → WellFormed t
  with_cache-WellFormed s t p l x c v = record {
    sourced = c;
    backed = λ lib provider e.
        let (xml, disk, e', o) = v.backed lib provider (ap (lookup lib) (sym p) ∙ e) in
        (xml, disk, ap (lookup lib) l ∙ e', o);
    indexed = λ name e.
        let (lib, profile, provider, n, e') = v.indexed name (ap (contains name) (sym x) ∙ e) in
        (lib, profile, provider, n, ap (lookup lib) p ∙ e');
  }

  pub no_cache : (k : Bytes) (pack : QosPack platform) → lookup k [] ≡ some pack → Source k pack
  unfolding lookup
  no_cache k pack e = absurd (ground (arith, e))

  pub insert-sourced :
      (k : Bytes) (pack : QosPack platform) (cache : List (Bytes × QosPack platform))
      → Source k pack
      → ((j : Bytes) (p : QosPack platform) → lookup j cache ≡ some p → Source j p)
      → (j : Bytes) (p : QosPack platform) → lookup j (insert k pack cache) ≡ some p
      → Source j p
  insert-sourced k pack cache g c j p e =
      by_test (k == j) refl (sym (lookup-insert k j pack cache) ∙ e)
    where
      by_test :
          (b : Bool)
          → (k == j) ≡ b
          → (if b then some pack else lookup j cache) ≡ some p
          → Source j p
      by_test true h e' =
          subst (λ q. Source j q) (ground (arith, e'))
            (subst (λ q. Source q pack) ((==_iff k j).0 h) g)
      by_test false h e' = c j p e'
