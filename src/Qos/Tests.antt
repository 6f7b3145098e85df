-- ===== src/Qos/Tests.antt =====
-- The store with providers that have every profile, and a directory without files.
use connext_triad.Prelude.{ℕ, true, none, some, [], ◌∷◌, ◌≡◌, refl, ◌⊎◌, lookup, insert, ◌||◌}
use connext_triad.Xml.Text.{Bytes, codes}
use connext_triad.Qos.Store.{Platform, QosPack, QosStore, create, contains, pack_of}
use connext_triad.Qos.Find.{find_or_reload, find_dynamic, dynamic_origin}
use connext_triad.Qos.Find.Laws.{find_or_reload-find_or_reload}
use connext_triad.Qos.Update.{add_or_update_profile, qos_uri}
use connext_triad.Qos.Update.Laws.{add_or_update_profile-find_or_reload, merged_text}
use connext_triad.Qos.Listing.{list_profiles, external_names, builtin_part}
use connext_triad.Qos.Names.Laws.{IsStrict, list_profiles-names}
use connext_triad.Qos.Invariant.{WellFormed}
use connext_triad.Qos.Invariant.Reachable.{here, next, updates, finds, Reach-WellFormed}

abbrev small_platform : Platform
small_platform = record {
  Provider = Bytes;
  Qos = Bytes;
  Disk = ℕ;
  open_provider = λ uri disk. some uri;
  qos = λ provider kind name. some name;
  directory = λ dir disk. some ([], true);
  read = λ path disk. none;
  write_time = λ path disk. none;
  baseline = some (codes "Baseline");
  generic_common = some (codes "Generic");
}

abbrev dynamic_store : QosStore small_platform
dynamic_store = record {
  dir = codes "qos";
  providers = [];
  builtin_candidates = codes "Baseline" ∷ [];
  cache = [];
  cache_version = 0;
  dynamic_libraries = (codes "L", codes "xml") ∷ [];
  dynamic_providers = (codes "L", codes "uri") ∷ [];
  dynamic_profiles_index = codes "L::P" ∷ [];
}

abbrev found_pack : QosPack small_platform
found_pack = record {
  participant_qos = codes "L::P";
  publisher_qos = codes "L::P";
  subscriber_qos = codes "L::P";
  topic_qos = codes "L::P";
  writer_qos = codes "L::P";
  reader_qos = codes "L::P";
  origin_file = codes "(dynamic)";
}

abbrev after_find : QosStore small_platform
after_find = record dynamic_store { cache = (codes "L::P", found_pack) ∷ [] }

dynamic_found :
    find_or_reload small_platform 0 (codes "L") (codes "P") dynamic_store
    ≡ (after_find, some found_pack)
unfolding find_or_reload find_dynamic pack_of lookup insert
dynamic_found = refl

find_or_reload-find_or_reload_example :
    find_or_reload small_platform 1 (codes "L") (codes "P") after_find
    ≡ (after_find, some found_pack)
find_or_reload-find_or_reload_example =
    find_or_reload-find_or_reload small_platform 0 1 (codes "L") (codes "P") dynamic_store
      after_find found_pack dynamic_found

abbrev new_profile : Bytes
new_profile = codes "<qos_profile/>"

abbrev updated : QosStore small_platform × Bytes
updated = add_or_update_profile small_platform 0 (codes "M") (codes "Q") new_profile dynamic_store

add_or_update_profile-find_or_reload_example :
    ((updated.1 ≡ []) × (updated.0 ≡ dynamic_store))
    ⊎ ((updated.1 ≡ codes "M::Q")
        × ((provider : Bytes) × (some (
                qos_uri
                  (merged_text small_platform (codes "M") (codes "Q") new_profile dynamic_store))
              ≡ some provider)
            × ((pack : QosPack small_platform)
                → pack_of small_platform provider (codes "M::Q") dynamic_origin ≡ some pack
                → (find_or_reload small_platform 1 (codes "M") (codes "Q") updated.0).1
                  ≡ some pack)))
add_or_update_profile-find_or_reload_example =
    add_or_update_profile-find_or_reload small_platform 0 1 (codes "M") (codes "Q") new_profile
      dynamic_store updated.0 updated.1 refl

list_profiles-names_example :
    IsStrict (list_profiles small_platform 0 true dynamic_store)
    × ((n : Bytes)
        → contains n (list_profiles small_platform 0 true dynamic_store) ≡ (
            contains n dynamic_store.dynamic_profiles_index
            || contains n (external_names small_platform 0 dynamic_store.providers)
            || contains n (builtin_part small_platform true dynamic_store)))
list_profiles-names_example = list_profiles-names small_platform 0 true dynamic_store

abbrev first : QosStore small_platform
first = create small_platform (codes "qos")

abbrev second : QosStore small_platform
second = (add_or_update_profile small_platform 0 (codes "M") (codes "Q") new_profile first).0

Reach-WellFormed_example :
    WellFormed small_platform (find_or_reload small_platform 1 (codes "M") (codes "Q") second).0
Reach-WellFormed_example = Reach-WellFormed small_platform (
    next (next here (updates 0 (codes "M") (codes "Q") new_profile))
      (finds 1 (codes "M") (codes "Q")))
