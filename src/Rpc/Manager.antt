-- ===== src/Rpc/Manager.antt =====
-- RtpDdsGateway/src/dds_manager_adapter.cpp: the manager behind the interface that the adapter
-- calls. The store of QoS profiles is an argument here, and so is the wording of a result's reason.
pub mod Requests
use connext_triad.Prelude.{none, some, ℕ, Option, String, Bool, true, false, if◌then◌else◌}
use connext_triad.Dds.External.{Rti, Done}
use connext_triad.Dds.State.{
  Manager, Reason, Outcome, returns, throws, ErrorCategory, no_error, resource, logic,
}
use connext_triad.Dds.Monad.{M, Exit, value, leave}
use connext_triad.Dds.Create.{
  create_participant, create_publisher, create_subscriber, create_writer, create_reader,
}
use connext_triad.Dds.Publish.{publish_json}
use connext_triad.Dds.Cleanup.{clear_entities}
use connext_triad.Dds.Samples.{Samples, TypeEntry}
use connext_triad.Rpc.Json.{JsonLib, Result, result, thrown}
use connext_triad.Rpc.Backend.{Backend, Reply, accepted, refused, broken}

-- What the manager takes from elsewhere beside `Rti`: the generated tables, the writers behind the
-- holders, and the store of profiles.
pub record Tables (lib : JsonLib) (World : Type 0) : Type 0 where
  pub type_registry : String → Option (TypeEntry World)
  pub json_registry : String → Option (lib.Json → ℕ → World → Bool × World)
  pub write_any : ℕ → ℕ → World → Done × World
  pub list_qos_profiles : Bool → Bool → World → Result lib.Json × World
  pub add_or_update_qos_profile : String → String → String → World → Result String × World

abbrev pub samples_of : (lib : JsonLib) {World : Type 0} → Tables lib World → Samples World
samples_of lib tables = record {
  Json = lib.Json;
  is_object = lib.is_object;
  dump_error = λ j. elim (lib.dump j) [ result t ↦ none | thrown what ↦ some what ];
  type_registry = tables.type_registry;
  json_registry = tables.json_registry;
  write_any = tables.write_any;
}

-- `(int)res.category`
unfoldable pub category_code : ErrorCategory → ℕ
category_code no_error = 0
category_code resource = 1
category_code logic = 2

module _ (wording : Reason → String) {World : Type 0} where
  -- An operation leaves early with a failure or an exception.
  unfoldable pub reply : {A : Type 0} → Exit A × Manager World → Reply A × Manager World
  unfolding category_code
  reply (value a, m) = (accepted a, m)
  reply (leave (returns r), m) = (refused (category_code r.category) (wording r.reason), m)
  reply (leave (throws what), m) = (broken what, m)

module _ {World : Type 0} where
  abbrev pub discard : {A : Type 0} → Reply A × Manager World → Reply (Unit {0}) × Manager World
  discard (accepted a, m) = (accepted tt, m)
  discard (refused c r, m) = (refused c r, m)
  discard (broken what, m) = (broken what, m)

  -- The identifier of a new endpoint, which the caller reads from `out_id`.
  abbrev pub out_id : Reply (ℕ × Reason) × Manager World → Reply ℕ × Manager World
  out_id (accepted (id, r), m) = (accepted id, m)
  out_id (refused c r, m) = (refused c r, m)
  out_id (broken what, m) = (broken what, m)

  abbrev pub elsewhere : {A : Type 0} → (World → A × World) → Manager World → A × Manager World
  elsewhere f m = let (a, w) = f m.world in (a, record m { world = w })

-- `DdsManagerAdapter`
abbrev pub manager :
    (Reason → String) → (lib : JsonLib) (rti : Rti) → Tables lib rti.World → Backend lib
manager wording lib rti tables = record {
  State = Manager rti.World;
  create_participant = λ d l p m. discard (reply wording (create_participant rti d l p m));
  create_publisher = λ d n l p m. discard (reply wording (create_publisher rti d n l p m));
  create_subscriber = λ d n l p m. discard (reply wording (create_subscriber rti d n l p m));
  create_writer = λ d n t y l p m. out_id (reply wording (create_writer rti d n t y l p m));
  create_reader = λ d n t y l p m. out_id (reply wording (create_reader rti d n t y l p m));
  publish_json = λ t j m. discard (reply wording (publish_json (samples_of lib tables) t j m));
  clear_entities = clear_entities;
  list_qos_profiles = λ b v. elsewhere (tables.list_qos_profiles b v);
  add_or_update_qos_profile = λ l p x. elsewhere (tables.add_or_update_qos_profile l p x);
}
