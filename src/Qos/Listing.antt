-- ===== src/Qos/Listing.antt =====
-- `list_profiles` of RtpDdsGateway/src/qos_store.cpp.
use connext_triad.Prelude.{List, ◌∷◌, [], ◌++◌, Bool, if◌then◌else◌}
use connext_triad.Xml.Text.{Bytes}
use connext_triad.Xml.Scan.{parse_profiles_from_file}
use connext_triad.Qos.Store.{Platform, ProviderEntry, QosStore}
use connext_triad.Qos.Load.{full_names}
use connext_triad.Qos.Names.{sort, unique}

module _ (platform : Platform) where
  open platform use {Disk}

  unfoldable pub external_names : Disk → List (ProviderEntry platform) → List Bytes
  external_names disk [] = []
  external_names disk (pe ∷ rest) =
      full_names (parse_profiles_from_file (platform.read pe.path disk)) ++ external_names disk rest

  abbrev pub builtin_part : Bool → QosStore platform → List Bytes
  builtin_part include_builtin s = if include_builtin then s.builtin_candidates else []

  unfoldable pub list_profiles : Disk → Bool → QosStore platform → List Bytes
  unfolding external_names unique
  list_profiles disk include_builtin s = unique (
      sort (
        s.dynamic_profiles_index
        ++ external_names disk s.providers
        ++ builtin_part include_builtin s))
