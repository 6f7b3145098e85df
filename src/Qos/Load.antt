-- ===== src/Qos/Load.antt =====
-- `load_providers_from_dir_nothrow`, `initialize`, `reload_all` and `extract_profile_xml` of
-- RtpDdsGateway/src/qos_store.cpp.
use connext_triad.Prelude.{
  ℕ, ◌+◌, Option, none, some, List, ◌∷◌, [], Bool, true, false, ◌&&◌, leb, is_empty, map,
  if◌then◌else◌,
}
use connext_triad.Xml.Text.{Bytes, bytes_beq, codes}
use connext_triad.Xml.Scan.{parse_profiles_from_file}
use connext_triad.Xml.Extract.{extract_profile_xml_from_content}
use connext_triad.Qos.Names.{sort, unique}
use connext_triad.Qos.Store.{Platform, key, u64, contains, ProviderEntry, QosStore}

abbrev to_lower : ℕ → ℕ
to_lower c = if leb 65 c && leb c 90 then c + 32 else c

unfoldable pub xml_files : List (Bytes × Bytes) → List Bytes
xml_files [] = []
xml_files ((path, extension) ∷ rest) =
    let later = xml_files rest in
    if bytes_beq (map to_lower extension) (codes ".xml") then path ∷ later else later

-- The files to load: sorted, unless the iteration of the directory throws.
unfoldable pub files_of : Option (List (Bytes × Bytes) × Bool) → List Bytes
unfolding xml_files sort
files_of none = []
files_of (some (entries, true)) = sort (xml_files entries)
files_of (some (entries, false)) = xml_files entries

-- The names of a file's profiles.
abbrev pub full_names : List (Bytes × Bytes) → List Bytes
full_names [] = []
full_names ((lib, profile) ∷ rest) = key lib profile ∷ full_names rest

-- `std::unordered_set`: a name that is there is not put in again.
unfoldable pub insert_name : Bytes → List Bytes → List Bytes
insert_name name names = if contains name names then names else name ∷ names

unfoldable pub name_set : List Bytes → List Bytes
unfolding insert_name
name_set [] = []
name_set (name ∷ names) = insert_name name (name_set names)

abbrev pub or_empty : Option Bytes → Bytes
or_empty none = []
or_empty (some content) = content

abbrev or_epoch : Option ℕ → ℕ
or_epoch none = 0
or_epoch (some time) = time

unfoldable pub try_push : Option Bytes → List Bytes → List Bytes
try_push none names = names
try_push (some name) names = if is_empty name then names else name ∷ names

module _ (platform : Platform) where
  open platform use {Disk}

  unfoldable pub file_profiles : Disk → Bytes → List Bytes
  unfolding name_set
  file_profiles disk path =
      name_set (full_names (parse_profiles_from_file (platform.read path disk)))

  unfoldable pub load_entry : Disk → Bytes → Option (ProviderEntry platform)
  load_entry disk path = elim (platform.open_provider path disk) [
    | none ↦ none
    | some provider ↦ some (record {
      path = path;
      provider = provider;
      profiles = file_profiles disk path;
      mtime = or_epoch (platform.write_time path disk);
      xml_content = or_empty (platform.read path disk);
    })
  ]

  abbrev add_entry :
      Option (ProviderEntry platform)
      → List (ProviderEntry platform)
      → List (ProviderEntry platform)
  add_entry none out = out
  add_entry (some entry) out = entry ∷ out

  unfoldable pub load_files : Disk → List Bytes → List (ProviderEntry platform)
  unfolding load_entry
  load_files disk [] = []
  load_files disk (path ∷ paths) = add_entry (load_entry disk path) (load_files disk paths)

  unfoldable pub load_providers_from_dir_nothrow : Bytes → Disk → List (ProviderEntry platform)
  unfolding load_files files_of
  load_providers_from_dir_nothrow dir disk =
      load_files disk (files_of (platform.directory dir disk))

  -- The names of two built-in libraries, those that the RTI library gives and are not empty.
  unfoldable pub collect_builtin_qos_lib_names : List Bytes
  unfolding try_push unique sort
  collect_builtin_qos_lib_names =
      unique (sort (try_push platform.baseline (try_push platform.generic_common [])))

  unfoldable pub initialize : Disk → QosStore platform → QosStore platform
  unfolding load_providers_from_dir_nothrow collect_builtin_qos_lib_names
  initialize disk s = record s {
    providers = load_providers_from_dir_nothrow s.dir disk;
    cache = [];
    cache_version = 0;
    builtin_candidates = collect_builtin_qos_lib_names;
  }

  unfoldable pub reload_all : Disk → QosStore platform → QosStore platform
  unfolding load_providers_from_dir_nothrow
  reload_all disk s = record s {
    providers = load_providers_from_dir_nothrow s.dir disk;
    cache = [];
    cache_version = u64 (s.cache_version + 1);
  }

  unfoldable pub extract_profile_xml : Disk → Bytes → Bytes → Bytes → Bytes
  extract_profile_xml disk path lib profile = elim (platform.read path disk) [
    | none ↦ []
    | some content ↦ extract_profile_xml_from_content content lib profile
  ]
