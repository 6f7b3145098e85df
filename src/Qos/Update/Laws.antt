-- ===== src/Qos/Update/Laws.antt =====
-- A profile that was added or updated is the one that is found.
use connext_triad.Prelude.{
  ◌≡◌, refl, subst, sym, Option, none, some, [], Bool, true, false, lookup-insert_self,
  lookup-erase, is_empty, if◌then◌else◌, ==_refl, inl, inr, ◌⊎◌,
}
use connext_triad.Xml.Text.{Bytes, bytes_eq}
use connext_triad.Xml.Merge.{merge_profile_into_library}
use connext_triad.Qos.Store.{Platform, key, QosPack, QosStore, pack_of}
use connext_triad.Qos.Find.{find_or_reload, find_dynamic, dynamic_origin}
use connext_triad.Qos.Update.{add_or_update_profile, install, store_profile, library_text, qos_uri}

module _ (platform : Platform) where
  open platform use {Provider, Disk}

  -- The text of the library with the profile merged in.
  abbrev pub merged_text : Bytes → Bytes → Bytes → QosStore platform → Bytes
  merged_text library profile profile_xml s =
      merge_profile_into_library (library_text platform library s) library profile profile_xml

  -- How an update ends: it fails and changes nothing, or the merged text opens as a provider, which
  -- is stored with the text.
  pub data Updated (disk : Disk) (library profile profile_xml : Bytes) (s : QosStore platform)
      (s' : QosStore platform) (name : Bytes) : Type 0 where
    refused : s' ≡ s → name ≡ [] → Updated disk library profile profile_xml s s' name
    stored :
        (provider : Provider)
        → platform.open_provider (qos_uri (merged_text library profile profile_xml s)) disk
          ≡ some provider
        → s'
          ≡ store_profile platform library profile
              (merged_text library profile profile_xml s)
              provider
              s
        → name ≡ key library profile
        → Updated disk library profile profile_xml s s' name

  pub add_or_update_profile-Updated :
      (disk : Disk) (library profile profile_xml : Bytes) (s : QosStore platform)
      → Updated disk library profile profile_xml s
          (add_or_update_profile platform disk library profile profile_xml s).0
          (add_or_update_profile platform disk library profile profile_xml s).1
  unfolding add_or_update_profile install
  add_or_update_profile-Updated disk library profile profile_xml s =
      by_merge (is_empty (merged_text library profile profile_xml s))
        (platform.open_provider (qos_uri (merged_text library profile profile_xml s)) disk) refl
    where
      by_merge :
          (empty : Bool) (o : Option Provider)
          → platform.open_provider (qos_uri (merged_text library profile profile_xml s)) disk ≡ o
          → let r : QosStore platform × Bytes =
              if empty then (s, []) else (elim o as (λ _. QosStore platform × Bytes) [
                | none ↦ (s, [])
                | some provider ↦ (
                  store_profile platform library profile
                      (merged_text library profile profile_xml s)
                      provider
                      s,
                  key library profile,
                )
              ]) in
            Updated disk library profile profile_xml s r.0 r.1
      by_merge true o e = refused refl refl
      by_merge false none e = refused refl refl
      by_merge false (some provider) e = stored provider e refl refl

  -- A store that has just taken a profile looks it up in the new provider.
  store_profile-find_or_reload :
      (disk : Disk) (library profile xml : Bytes) (provider : Provider) (s : QosStore platform)
      (pack : QosPack platform)
      → pack_of platform provider (key library profile) dynamic_origin ≡ some pack
      → (find_or_reload platform disk library profile
          (store_profile platform library profile xml provider s)).1
        ≡ some pack
  unfolding find_or_reload store_profile find_dynamic
  store_profile-find_or_reload disk library profile xml provider s pack e =
      rw (lookup-erase (key library profile) (key library profile) s.cache, find_or_reload)
        (rw (==_refl (key library profile), find_or_reload)
          (rw (lookup-insert_self library provider s.dynamic_providers, find_or_reload)
            (rw (e, find_or_reload) refl)))

  -- An update that gives an empty name leaves the store as it was. Otherwise it gives the full name
  -- of the profile, and the next search for that profile, whatever the files hold and whatever was
  -- cached, finds what the provider of the merged text has under that name, if it has the profile.
  pub add_or_update_profile-find_or_reload :
      (disk later : Disk) (library profile profile_xml : Bytes) (s s' : QosStore platform)
      (name : Bytes)
      → add_or_update_profile platform disk library profile profile_xml s ≡ (s', name)
      → ((name ≡ []) × (s' ≡ s))
        ⊎ ((name ≡ key library profile)
            × ((provider : Provider) × (platform.open_provider
                    (qos_uri (merged_text library profile profile_xml s))
                    disk
                  ≡ some provider)
                × ((pack : QosPack platform)
                    → pack_of platform provider (key library profile) dynamic_origin ≡ some pack
                    → (find_or_reload platform later library profile s').1 ≡ some pack)))
  add_or_update_profile-find_or_reload disk later library profile profile_xml s s' name e = by_end (
      subst (λ r. Updated disk library profile profile_xml s r.0 r.1) e
        (add_or_update_profile-Updated disk library profile profile_xml s))
    where
      by_end :
          Updated disk library profile profile_xml s s' name
          → ((name ≡ []) × (s' ≡ s))
            ⊎ ((name ≡ key library profile)
                × ((provider : Provider) × (platform.open_provider
                        (qos_uri (merged_text library profile profile_xml s))
                        disk
                      ≡ some provider)
                    × ((pack : QosPack platform)
                        → pack_of platform provider (key library profile) dynamic_origin ≡ some pack
                        → (find_or_reload platform later library profile s').1 ≡ some pack)))
      by_end (refused h n) = inl (n, h)
      by_end (stored provider o h n) = inr (
        n,
        (
          provider,
          o,
          λ pack q.
              subst (λ x. (find_or_reload platform later library profile x).1 ≡ some pack) (sym h)
                (store_profile-find_or_reload later library profile _ provider s pack q),
        ),
      )
