-- ===== src/Qos/Service.antt =====
-- RtpDdsGateway/src/dds_manager_qos.cpp: the profile functions of `DdsManager`, which keeps a store
-- or, before it is initialised, none. What they answer as JSON is a record.
use connext_triad.Prelude.{List, [], ◌++◌, Bool, Option, none, some, if◌then◌else◌, is_empty}
use connext_triad.Xml.Text.{Bytes, codes}
use connext_triad.Qos.Store.{Platform, QosStore, QosPack}
use connext_triad.Qos.Listing.{list_profiles}
use connext_triad.Qos.Update.{add_or_update_profile}
use connext_triad.Qos.Detail.{Detail, detail_profiles}

-- `result`, and `detail` where it is asked for.
pub record Profiles : Type 0 where
  pub result : List Bytes
  pub detail : Option (List (Bytes × Option Detail))

module _ (platform : Platform) where
  open platform use {Provider, Qos, Disk}

  unfoldable pub summarize_qos : QosPack platform → Bytes
  summarize_qos p =
      if is_empty p.origin_file
      then codes "(qos:default)"
      else codes "(qos from=" ++ p.origin_file ++ codes ")"

  unfoldable pub list_qos_profiles :
      (Bytes → Qos → Qos → Qos → Bytes)
      → Option Provider
      → Disk
      → Bool
      → Bool
      → Option (QosStore platform)
      → Profiles
  list_qos_profiles print default_provider disk include_builtin include_detail none = record {
    result = [];
    detail = if include_detail then some [] else none;
  }
  list_qos_profiles print default_provider disk include_builtin include_detail (some s) = record {
    result = list_profiles platform disk include_builtin s;
    detail =
        if include_detail
        then some (detail_profiles platform print default_provider disk include_builtin s)
        else none;
  }

  -- The answer is empty without a store.
  unfoldable pub add_or_update_qos_profile :
      Disk → Bytes → Bytes → Bytes → Option (QosStore platform) → Option (QosStore platform) × Bytes
  add_or_update_qos_profile disk library profile profile_xml none = (none, [])
  add_or_update_qos_profile disk library profile profile_xml (some s) =
      let (s', name) = add_or_update_profile platform disk library profile profile_xml s in
      (some s', name)
