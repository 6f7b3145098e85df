-- ===== src/Qos/Update.antt =====
-- `add_or_update_profile` of RtpDdsGateway/src/qos_store.cpp.
pub mod Laws
use connext_triad.Prelude.{
  Option, none, some, List, ◌∷◌, [], ◌++◌, Bool, true, false, lookup, insert, erase, is_some,
  is_empty, if◌then◌else◌,
}
use connext_triad.Xml.Text.{Bytes, codes, bytes_eq, cut}
use connext_triad.Xml.Merge.{merge_profile_into_library}
use connext_triad.Qos.Store.{Platform, key, ProviderEntry, QosStore}
use connext_triad.Qos.Load.{insert_name}

-- The text of a library without profiles.
unfoldable pub library_template : Bytes → Bytes
library_template library =
    codes "<?xml version=\"1.0\" encoding=\"UTF-8\"?>\n<dds>\n  <qos_library name=\""
    ++ library
    ++ codes "\">\n  </qos_library>\n</dds>"

-- `"str://\"" + … + "\""`
abbrev pub qos_uri : Bytes → Bytes
qos_uri xml = codes "str://\"" ++ xml ++ codes "\""

module _ (platform : Platform) where
  open platform use {Provider, Disk}

  -- The text of the first file that has the library's opening tag.
  unfoldable pub file_with_library : Bytes → List (ProviderEntry platform) → Bytes
  file_with_library library [] = []
  file_with_library library (pe ∷ rest) =
      let later = file_with_library library rest in
      if is_some (cut (codes "<qos_library name=\"" ++ library ++ codes "\"") pe.xml_content)
      then pe.xml_content
      else later

  unfoldable pub file_or_template : Bytes → Bytes → Bytes
  unfolding library_template
  file_or_template library xml = if is_empty xml then library_template library else xml

  unfoldable pub library_text : Bytes → QosStore platform → Bytes
  unfolding file_or_template file_with_library
  library_text library s = elim (lookup library s.dynamic_libraries) [
    | some xml ↦ xml
    | none ↦ file_or_template library (file_with_library library s.providers)
  ]

  unfoldable pub store_profile :
      Bytes → Bytes → Bytes → Provider → QosStore platform → QosStore platform
  store_profile library profile xml provider s = record s {
    dynamic_libraries = insert library xml s.dynamic_libraries;
    dynamic_providers = insert library provider s.dynamic_providers;
    dynamic_profiles_index = insert_name (key library profile) s.dynamic_profiles_index;
    cache = erase (key library profile) s.cache;
  }

  -- What follows the merge.
  unfoldable pub install :
      Disk → Bytes → Bytes → Bytes → QosStore platform → QosStore platform × Bytes
  unfolding store_profile
  install disk library profile xml s =
      if is_empty xml then (s, []) else elim (platform.open_provider (qos_uri xml) disk) [
        | none ↦ (s, [])
        | some provider ↦ (store_profile library profile xml provider s, key library profile)
      ]

  -- The full name, or an empty text where it fails.
  unfoldable pub add_or_update_profile :
      Disk → Bytes → Bytes → Bytes → QosStore platform → QosStore platform × Bytes
  unfolding library_text install
  add_or_update_profile disk library profile profile_xml s =
      install disk library profile
        (merge_profile_into_library (library_text library s) library profile profile_xml) s
