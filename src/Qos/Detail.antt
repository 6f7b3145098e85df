-- ===== src/Qos/Detail.antt =====
-- `detail_profiles` of RtpDdsGateway/src/qos_store.cpp. A detail is what its JSON object has;
-- `default_provider` is `QosProvider::Default()`, and `print` is `qos_pack_to_profile_xml`.
pub mod Files
mod Tests
use connext_triad.Prelude.{
  List, ◌∷◌, [], ◌++◌, Bool, true, false, Option, none, some, Map, lookup, insert, map, ◌+◌, drop,
  length, if◌then◌else◌,
}
use connext_triad.Xml.Text.{Bytes, codes, bytes_eq, cut, starts_with}
use connext_triad.Xml.Scan.{parse_profiles_from_file}
use connext_triad.Xml.Extract.{extract_profile_xml_from_content}
use connext_triad.Xml.Compress.{compress_xml}
use connext_triad.Qos.Store.{Platform, ProviderEntry, QosStore, key, writer, reader, topic}
use connext_triad.Qos.Names.{sort}

pub data SourceKind : Type 0 where
  dynamic external builtin : SourceKind

pub record Detail : Type 0 where
  pub source_kind : SourceKind
  pub xml : Bytes

abbrev pub is_dynamic : Option Detail → Bool
is_dynamic none = false
is_dynamic (some d) = elim d.source_kind [ dynamic ↦ true | external ↦ false | builtin ↦ false ]

-- What follows the first `::`, or the whole name.
unfoldable pub profile_name_of : Bytes → Bytes
profile_name_of full = elim (cut (codes "::") full) [ none ↦ full | some (lib, from) ↦ drop 2 from ]

-- A text that is found replaces the printed one.
abbrev pub prefer : Bytes → Bytes → Bytes
prefer [] printed = printed
prefer (c ∷ found) printed = compress_xml (c ∷ found)

module _ (platform : Platform)
    (print : Bytes → platform.Qos → platform.Qos → platform.Qos → Bytes) where
  open platform use {Provider, Qos, Disk}

  infixl 5 ◌>>=◌
  abbrev ◌>>=◌ : {A B : Type 0} → Option A → (A → Option B) → Option B
  none >>= f = none
  some a >>= f = f a

  -- The printed profile; `none` where the provider throws.
  unfoldable pub fill_effective : Provider → Bytes → Option Bytes
  unfolding profile_name_of
  fill_effective provider full = do
    w ← platform.qos provider writer full
    r ← platform.qos provider reader full
    t ← platform.qos provider topic full
    some (print (profile_name_of full) w r t)

  unfoldable pub stored_xml : Bytes → Bytes → QosStore platform → Bytes
  stored_xml lib full s = elim (lookup lib s.dynamic_libraries) [
    | none ↦ []
    | some content ↦ extract_profile_xml_from_content content lib (drop (length lib + 2) full)
  ]

  -- The profiles of one dynamic library.
  unfoldable pub dynamic_names :
      Bytes → Provider → QosStore platform → List Bytes → Map Bytes Detail → Map Bytes Detail
  unfolding fill_effective stored_xml
  dynamic_names lib provider s [] m = m
  dynamic_names lib provider s (full ∷ names) m =
      let filled = elim (fill_effective provider full) as (λ _. Map Bytes Detail) [
        | none ↦ m
        | some printed ↦
            insert full
              (record { source_kind = dynamic; xml = prefer (stored_xml lib full s) printed }) m
      ] in
      dynamic_names lib provider s names
        (if starts_with (lib ++ codes "::") full then filled else m)

  unfoldable pub dynamic_details :
      QosStore platform → Map Bytes Provider → Map Bytes Detail → Map Bytes Detail
  unfolding dynamic_names
  dynamic_details s [] m = m
  dynamic_details s ((lib, provider) ∷ providers) m =
      dynamic_details s providers (dynamic_names lib provider s s.dynamic_profiles_index m)

  unfoldable pub file_xml : Disk → Bytes → Bytes → Bytes → Bytes
  file_xml disk path lib profile = elim (platform.read path disk) [
    | none ↦ []
    | some content ↦ extract_profile_xml_from_content content lib profile
  ]

  -- The detail that a file gives, if its provider has the profile.
  unfoldable pub external_detail : Disk → ProviderEntry platform → Bytes → Bytes → Option Detail
  unfolding fill_effective file_xml
  external_detail disk pe lib profile = elim (fill_effective pe.provider (key lib profile)) [
    | none ↦ none
    | some printed ↦ some (record {
      source_kind = external;
      xml = prefer (file_xml disk pe.path lib profile) printed;
    })
  ]

  -- Only the detail of a dynamic profile is kept.
  unfoldable pub put_external : Bytes → Option Detail → Map Bytes Detail → Map Bytes Detail
  put_external full none m = m
  put_external full (some d) m = if is_dynamic (lookup full m) then m else insert full d m

  unfoldable pub file_details :
      Disk → ProviderEntry platform → List (Bytes × Bytes) → Map Bytes Detail → Map Bytes Detail
  unfolding external_detail put_external
  file_details disk pe [] m = m
  file_details disk pe ((lib, profile) ∷ pairs) m =
      file_details disk pe pairs
        (put_external (key lib profile) (external_detail disk pe lib profile) m)

  -- From the last provider to the first.
  unfoldable pub external_details :
      Disk → List (ProviderEntry platform) → Map Bytes Detail → Map Bytes Detail
  unfolding file_details
  external_details disk [] m = m
  external_details disk (pe ∷ rest) m =
      file_details disk pe (parse_profiles_from_file (platform.read pe.path disk))
        (external_details disk rest m)

  unfoldable pub builtin_details : Provider → List Bytes → Map Bytes Detail → Map Bytes Detail
  unfolding fill_effective
  builtin_details provider [] m = m
  builtin_details provider (full ∷ names) m =
      builtin_details provider names
        (elim (fill_effective provider full) as (λ _. Map Bytes Detail) [
          | none ↦ m
          | some printed ↦ insert full (record { source_kind = builtin; xml = printed }) m
        ])

  unfoldable pub detail_map : Option Provider → Disk → Bool → QosStore platform → Map Bytes Detail
  unfolding dynamic_details external_details builtin_details
  detail_map default_provider disk include_builtin s =
      let files = external_details disk s.providers (dynamic_details s s.dynamic_providers []) in
      elim default_provider [
        | none ↦ files
        | some provider ↦
            if include_builtin then builtin_details provider s.builtin_candidates files else files
      ]

  abbrev names_of : Map Bytes Detail → List Bytes
  names_of [] = []
  names_of ((full, d) ∷ m) = full ∷ names_of m

  -- One entry for each key, in the order of the keys.
  unfoldable pub detail_profiles :
      Option Provider → Disk → Bool → QosStore platform → List (Bytes × Option Detail)
  unfolding detail_map
  detail_profiles default_provider disk include_builtin s =
      let details = detail_map default_provider disk include_builtin s in
      map (λ full. (full, lookup full details)) (sort (names_of details))
