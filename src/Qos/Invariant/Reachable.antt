-- ===== src/Qos/Invariant/Reachable.antt =====
-- The store after any sequence of its operations.
use connext_triad.Prelude.{
  ◌≡◌, refl, subst, sym, ◌∙◌, ap, arith, none, some, List, ◌∷◌, Bool, true, false, lookup, insert,
  erase, lookup-insert, lookup-insert_self, lookup-erase, if◌then◌else◌, ◌==◌, ◌⊎◌, inl, inr,
}
use connext_triad.Xml.Text.{Bytes, bytes_eq, bytes_beq, bytes_beq_iff}
use connext_triad.Qos.Store.{Platform, key, contains, QosPack, QosStore, create}
use connext_triad.Qos.Load.{initialize, reload_all, insert_name}
use connext_triad.Qos.Find.{find_or_reload}
use connext_triad.Qos.Update.{add_or_update_profile, store_profile, qos_uri}
use connext_triad.Qos.Update.Laws.{Updated, refused, stored, add_or_update_profile-Updated}
use connext_triad.Qos.Invariant.{
  Source, WellFormed, with_cache-WellFormed, no_cache, create-WellFormed,
}
use connext_triad.Qos.Invariant.Finds.{reload_all-WellFormed, find_or_reload-Ends}

module _ (platform : Platform) where
  open platform use {Provider, Disk}

  -- One operation.
  pub data Step (s : QosStore platform) : QosStore platform → Type 0 where
    initializes : (disk : Disk) → Step s (initialize platform disk s)
    reloads : (disk : Disk) → Step s (reload_all platform disk s)
    finds :
        (disk : Disk) (lib profile : Bytes) → Step s (find_or_reload platform disk lib profile s).0
    updates :
        (disk : Disk) (library profile xml : Bytes)
        → Step s (add_or_update_profile platform disk library profile xml s).0

  pub data Reach (dir : Bytes) : QosStore platform → Type 0 where
    here : Reach dir (create platform dir)
    next : {s t : QosStore platform} → Reach dir s → Step s t → Reach dir t

  contains-insert_name :
      (name added : Bytes) (names : List Bytes)
      → contains name (insert_name added names) ≡ true
      → (name ≡ added) ⊎ (contains name names ≡ true)
  unfolding insert_name
  contains-insert_name name added names e =
      by_test (contains added names) (bytes_beq name added) refl e
    where
      by_test :
          (b same : Bool)
          → bytes_beq name added ≡ same
          → contains name (if b then names else added ∷ names) ≡ true
          → (name ≡ added) ⊎ (contains name names ≡ true)
      by_test true same h e' = inr e'
      by_test false true h e' = inl ((bytes_beq_iff name added).0 h)
      by_test false false h e' = inr (ground (arith, h, e'))

  erase-sourced :
      (k : Bytes) (cache : List (Bytes × QosPack platform))
      → ((j : Bytes) (p : QosPack platform) → lookup j cache ≡ some p → Source platform j p)
      → (j : Bytes) (p : QosPack platform) → lookup j (erase k cache) ≡ some p
      → Source platform j p
  erase-sourced k cache c j p e = by_test (k == j) (sym (lookup-erase k j cache) ∙ e)
    where
      by_test : (b : Bool) → (if b then none else lookup j cache) ≡ some p → Source platform j p
      by_test true e' = absurd (ground (arith, e'))
      by_test false e' = c j p e'

  store_profile-WellFormed :
      (disk : Disk) (library profile xml : Bytes) (provider : Provider) (s : QosStore platform)
      → platform.open_provider (qos_uri xml) disk ≡ some provider
      → WellFormed platform s
      → WellFormed platform (store_profile platform library profile xml provider s)
  unfolding store_profile
  store_profile-WellFormed disk library profile xml provider s o v = record {
    sourced = erase-sourced (key library profile) s.cache v.sourced;
    backed = λ lib p e.
        backed_by lib p (library == lib) refl
          (sym (lookup-insert library lib provider s.dynamic_providers) ∙ e);
    indexed = λ name e. indexed_by name (contains-insert_name name (key library profile) _ e);
  }
    where
      if_true :
          (lib : Bytes)
          → (library == lib) ≡ true
          → (if library == lib then some xml else lookup lib s.dynamic_libraries) ≡ some xml
      if_true lib h = ap (λ b. if b then some xml else lookup lib s.dynamic_libraries) h

      if_false :
          (lib : Bytes)
          → (library == lib) ≡ false
          → (if library == lib then some xml else lookup lib s.dynamic_libraries)
            ≡ lookup lib s.dynamic_libraries
      if_false lib h = ap (λ b. if b then some xml else lookup lib s.dynamic_libraries) h

      still :
          (lib : Bytes) (p : Provider) (b : Bool)
          → (library == lib) ≡ b
          → lookup lib s.dynamic_providers ≡ some p
          → (p' : Provider) × (lookup lib (insert library provider s.dynamic_providers) ≡ some p')
      still lib p true h e = (
        provider,
        lookup-insert library lib provider s.dynamic_providers
            ∙ ap (λ b. if b then some provider else lookup lib s.dynamic_providers) h,
      )
      still lib p false h e = (
        p,
        lookup-insert library lib provider s.dynamic_providers
            ∙ ap (λ b. if b then some provider else lookup lib s.dynamic_providers) h
            ∙ e,
      )

      backed_by :
          (lib : Bytes) (p : Provider) (b : Bool)
          → (library == lib) ≡ b
          → (if b then some provider else lookup lib s.dynamic_providers) ≡ some p
          → (x : Bytes) × (d : Disk) × (lookup lib (insert library xml s.dynamic_libraries)
              ≡ some x)
            × (platform.open_provider (qos_uri x) d ≡ some p)
      backed_by lib p true h e =
          (xml, disk, lookup-insert library lib xml s.dynamic_libraries ∙ if_true lib h, o ∙ e)
      backed_by lib p false h e =
          let (x, d, e', o') = v.backed lib p e in
          (x, d, (lookup-insert library lib xml s.dynamic_libraries ∙ if_false lib h) ∙ e', o')

      indexed_by :
          (name : Bytes)
          → (name ≡ key library profile) ⊎ (contains name s.dynamic_profiles_index ≡ true)
          → (lib : Bytes) × (pr : Bytes) × (p : Provider) × (name ≡ key lib pr)
            × (lookup lib (insert library provider s.dynamic_providers) ≡ some p)
      indexed_by name (inl n) =
          (library, profile, provider, n, lookup-insert_self library provider s.dynamic_providers)
      indexed_by name (inr h) =
          let (lib, pr, p, n, e) = v.indexed name h in
          let (p', e') = still lib p (library == lib) refl e in (lib, pr, p', n, e')

  update-WellFormed :
      (disk : Disk) (library profile xml : Bytes) (s s' : QosStore platform) (name : Bytes)
      → WellFormed platform s
      → Updated platform disk library profile xml s s' name
      → WellFormed platform s'
  update-WellFormed disk library profile xml s s' name v (refused e n) =
      subst (WellFormed platform) (sym e) v
  update-WellFormed disk library profile xml s s' name v (stored provider o e n) =
      subst (WellFormed platform) (sym e)
        (store_profile-WellFormed disk library profile _ provider s o v)

  Step-WellFormed :
      {s t : QosStore platform} → Step s t → WellFormed platform s → WellFormed platform t
  unfolding initialize
  Step-WellFormed (initializes disk) v =
      with_cache-WellFormed platform _ _ refl refl refl (no_cache platform) v
  Step-WellFormed (reloads disk) v = reload_all-WellFormed platform disk _ v
  Step-WellFormed (finds disk lib profile) v = (find_or_reload-Ends platform disk lib profile _ v).0
  Step-WellFormed (updates disk library profile xml) v =
      update-WellFormed disk library profile xml _ _ _ v
        (add_or_update_profile-Updated platform disk library profile xml _)

  -- After any sequence of the operations of a store, each with any state of the disk, every cached
  -- pack is what some provider gave under the name it is cached for, every dynamic provider was
  -- opened on the text kept for its library, and every dynamic profile belongs to a library that
  -- has a dynamic provider.
  pub Reach-WellFormed : {dir : Bytes} {s : QosStore platform} → Reach dir s → WellFormed platform s
  Reach-WellFormed {dir} here = create-WellFormed platform dir
  Reach-WellFormed (next r st) = Step-WellFormed st (Reach-WellFormed r)
