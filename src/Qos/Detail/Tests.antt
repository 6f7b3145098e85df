-- ===== src/Qos/Detail/Tests.antt =====
-- Two files with one profile, behind one that cannot be read: the details show the first of them.
use connext_triad.Prelude.{◌∷◌, [], ◌++◌, true, false, none, some, ◌≡◌, refl, lookup, if◌then◌else◌}
use connext_triad.Xml.Text.{Bytes, bytes_eq, codes, cut, cut_byte, starts_with}
use connext_triad.Xml.Scan.{find_tag, parse_profiles_from_file}
use connext_triad.Xml.Extract.{extract_profile_xml_from_content}
use connext_triad.Xml.Compress.{compress_xml, step}
use connext_triad.Qos.Store.{Platform, ProviderEntry, QosStore, key, create}
use connext_triad.Qos.Detail.{Detail, external, detail_map, external_detail, dynamic_details}
use connext_triad.Qos.Detail.Files.{SilentFile, detail_map-first_file}

-- Each file has the profile, and its own path in it.
abbrev content : Bytes → Bytes
content path =
    codes "<qos_library name=\"L\"><qos_profile name=\"P\">"
    ++ path
    ++ codes "</qos_profile></qos_library>"

abbrev two_files : Platform
two_files = record {
  Provider = Bytes;
  Qos = Bytes;
  Disk = Unit {0};
  open_provider = λ uri disk. some uri;
  qos = λ provider kind name. some provider;
  directory = λ dir disk. some ([], true);
  read = λ path disk. if starts_with (codes "c") path then none else some (content path);
  write_time = λ path disk. none;
  baseline = none;
  generic_common = none;
}

abbrev printed : Bytes → Bytes → Bytes → Bytes → Bytes
printed name w r t = w

abbrev file : Bytes → ProviderEntry two_files
file name = record {
  path = name;
  provider = name;
  profiles = codes "L::P" ∷ [];
  mtime = 0;
  xml_content = content name;
}

abbrev store : QosStore two_files
store = record (create two_files (codes "qos")) {
  providers = file (codes "c") ∷ file (codes "a") ∷ file (codes "b") ∷ [];
}

abbrev shown : Detail
shown = record { source_kind = external; xml = codes "<qos_profile name=\"P\">a</qos_profile>" }

listed : parse_profiles_from_file (two_files.read (codes "a") tt) ≡ (codes "L", codes "P") ∷ []
unfolding parse_profiles_from_file find_tag cut cut_byte
listed = refl

-- The first file cannot be read.
silent : SilentFile two_files printed tt (key (codes "L") (codes "P")) (file (codes "c"))
unfolding parse_profiles_from_file starts_with
silent = tt

detailed :
    external_detail two_files printed tt (file (codes "a")) (codes "L") (codes "P") ≡ some shown
unfolding external_detail extract_profile_xml_from_content compress_xml find_tag cut cut_byte step
detailed = refl

detail_map-first_file_example :
    lookup (key (codes "L") (codes "P")) (detail_map two_files printed none tt false store)
    ≡ some shown
unfolding create dynamic_details lookup
detail_map-first_file_example =
    detail_map-first_file two_files printed none tt store (file (codes "c") ∷ []) (file (codes "a"))
      (file (codes "b") ∷ []) (codes "L") (codes "P") [] [] shown refl (silent, tt) listed tt
      detailed refl
