-- ===== src/Holders/Data.antt =====
-- What the holders of RtpDdsGateway/include/dds_type_registry.hpp share: type-erased data, status
-- masks and exceptions.
use connext_triad.Prelude.{ℕ, String, Bool, false, Option, ◌||◌, ◌==◌, nat_eq}

-- The standard exceptions that the code tells apart. Each has its `what()`.
pub data Thrown : Type 0 where
  bad_cast invalid_argument runtime_error other : String → Thrown

pub data Result {ℓ} (A : Type ℓ) : Type ℓ where
  result : A → Result A
  thrown : Thrown → Result A

-- A `std::any`: without a value, with a `void*` (null or an address), with the `shared_ptr<void>`
-- of a slot of a reader's pool, or with anything else.
pub data AnyData : Type 0 where
  empty : AnyData
  pointer : Option ℕ → AnyData
  shared : ℕ → AnyData
  unrelated : AnyData

pub data Status : Type 0 where
  publication_matched offered_incompatible_qos liveliness_lost : Status
  subscription_matched requested_incompatible_qos sample_lost data_available : Status

abbrev pub bit : Status → ℕ
bit publication_matched = 0
bit offered_incompatible_qos = 1
bit liveliness_lost = 2
bit subscription_matched = 3
bit requested_incompatible_qos = 4
bit sample_lost = 5
bit data_available = 6

-- A `StatusMask` tells of each status whether it is in it: `(mask & s).any()` is `mask s`.
abbrev pub Mask : Type 0
Mask = Status → Bool

abbrev pub no_status : Mask
no_status s = false

abbrev pub only : Status → Mask
only s t = bit t == bit s

infixl 30 ◌∪◌
abbrev pub ◌∪◌ : Mask → Mask → Mask
(a ∪ b) s = a s || b s
