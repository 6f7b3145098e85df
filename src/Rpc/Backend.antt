-- ===== src/Rpc/Backend.antt =====
-- RtpDdsGateway/include/rtpdds/api/idds_manager.hpp: the interface that the adapter calls, and the
-- calls it makes as values.
use connext_triad.Prelude.{ℕ, ℤ, String, Bool}
use connext_triad.Rpc.Json.{JsonLib, Result}

-- A `DdsResult` with what the call hands out, or an exception.
pub data Reply {ℓ} (A : Type ℓ) : Type ℓ where
  accepted : A → Reply A
  refused : ℕ → String → Reply A
  broken : String → Reply A

pub record Backend (lib : JsonLib) : Type 1 where
  pub State : Type 0
  pub create_participant : ℤ → String → String → State → Reply (Unit {0}) × State
  pub create_publisher : ℤ → String → String → String → State → Reply (Unit {0}) × State
  pub create_subscriber : ℤ → String → String → String → State → Reply (Unit {0}) × State
  pub create_writer : ℤ → String → String → String → String → String → State → Reply ℕ × State
  pub create_reader : ℤ → String → String → String → String → String → State → Reply ℕ × State
  pub publish_json : String → lib.Json → State → Reply (Unit {0}) × State
  pub clear_entities : State → State
  pub list_qos_profiles : Bool → Bool → State → Result lib.Json × State
  pub add_or_update_qos_profile : String → String → String → State → Result String × State

module _ (lib : JsonLib) where
  pub data Command : Type 0 where
    participant : ℤ → String → String → Command
    publisher subscriber : ℤ → String → String → String → Command
    writer reader : ℤ → String → String → String → String → String → Command
    publish : String → lib.Json → Command
    clear : Command
    list_profiles : Bool → Bool → Command
    set_profile : String → String → String → Command

module _ {lib : JsonLib} (backend : Backend lib) where
  open backend use {State}

  -- The state after a call.
  unfoldable pub perform : Command lib → State → State
  perform (participant d l p) s = (backend.create_participant d l p s).1
  perform (publisher d n l p) s = (backend.create_publisher d n l p s).1
  perform (subscriber d n l p) s = (backend.create_subscriber d n l p s).1
  perform (writer d n t y l p) s = (backend.create_writer d n t y l p s).1
  perform (reader d n t y l p) s = (backend.create_reader d n t y l p s).1
  perform (publish t j) s = (backend.publish_json t j s).1
  perform clear s = backend.clear_entities s
  perform (list_profiles b v) s = (backend.list_qos_profiles b v s).1
  perform (set_profile l p x) s = (backend.add_or_update_qos_profile l p x s).1
