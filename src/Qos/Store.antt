-- ===== src/Qos/Store.antt =====
-- The state of `QosStore` (RtpDdsGateway/include/qos_store.hpp), and what it takes from elsewhere:
-- the QoS providers of the RTI library and the file system. A call of the store sees one state of
-- the disk; an exception of these calls is `none`.
use connext_triad.Prelude.{ℕ, Option, none, some, List, [], ◌++◌, Bool, Map, ◌%◌, ◌^◌, any}
use connext_triad.Xml.Text.{Bytes, bytes_beq, codes}

-- The policies that a profile has.
pub data Kind : Type 0 where
  participant publisher subscriber topic writer reader : Kind

-- `directory` gives the path and the extension of each regular file, and whether the iteration got
-- to its end; `none` where the directory does not exist.
pub record Platform : Type 1 where
  pub Provider : Type 0
  pub Qos : Type 0
  pub Disk : Type 0
  pub open_provider : Bytes → Disk → Option Provider
  pub qos : Provider → Kind → Bytes → Option Qos
  pub directory : Bytes → Disk → Option (List (Bytes × Bytes) × Bool)
  pub read : Bytes → Disk → Option Bytes
  pub write_time : Bytes → Disk → Option ℕ
  pub baseline : Option Bytes
  pub generic_common : Option Bytes

-- `lib + "::" + profile`
abbrev pub key : Bytes → Bytes → Bytes
key lib profile = lib ++ codes "::" ++ profile

abbrev pub contains : Bytes → List Bytes → Bool
contains name = any (bytes_beq name)

abbrev pub u64 : ℕ → ℕ
u64 n = n % 2 ^ 64

module _ (platform : Platform) where
  open platform use {Provider, Qos, Disk}

  pub record QosPack : Type 0 where
    pub participant_qos : Qos
    pub publisher_qos : Qos
    pub subscriber_qos : Qos
    pub topic_qos : Qos
    pub writer_qos : Qos
    pub reader_qos : Qos
    pub origin_file : Bytes

  pub record ProviderEntry : Type 0 where
    pub path : Bytes
    pub provider : Provider
    pub profiles : List Bytes
    pub mtime : ℕ
    pub xml_content : Bytes

  pub record QosStore : Type 0 where
    pub dir : Bytes
    pub providers : List ProviderEntry
    pub builtin_candidates : List Bytes
    pub cache : Map Bytes QosPack
    pub cache_version : ℕ
    pub dynamic_libraries : Map Bytes Bytes
    pub dynamic_providers : Map Bytes Provider
    pub dynamic_profiles_index : List Bytes

  unfoldable pub create : Bytes → QosStore
  create dir = record {
    dir = dir;
    providers = [];
    builtin_candidates = [];
    cache = [];
    cache_version = 0;
    dynamic_libraries = [];
    dynamic_providers = [];
    dynamic_profiles_index = [];
  }

  infixl 5 ◌>>=◌
  abbrev ◌>>=◌ : {A B : Type 0} → Option A → (A → Option B) → Option B
  none >>= f = none
  some a >>= f = f a

  -- The six lookups in the `try` blocks, in their order.
  unfoldable pub pack_of : Provider → Bytes → Bytes → Option QosPack
  pack_of provider combined origin = do
    p ← platform.qos provider participant combined
    pub_qos ← platform.qos provider publisher combined
    sub_qos ← platform.qos provider subscriber combined
    t ← platform.qos provider topic combined
    w ← platform.qos provider writer combined
    r ← platform.qos provider reader combined
    some (record {
      participant_qos = p;
      publisher_qos = pub_qos;
      subscriber_qos = sub_qos;
      topic_qos = t;
      writer_qos = w;
      reader_qos = r;
      origin_file = origin;
    })
