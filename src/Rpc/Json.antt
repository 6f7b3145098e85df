-- ===== src/Rpc/Json.antt =====
-- The JSON library that RtpDdsGateway/src/ipc_adapter.cpp calls, as a parameter: no law is assumed
-- of it. A call that may throw gives a value or the exception's message.
use connext_triad.Prelude.{ℕ, ℤ, String, Bool, List}

pub data Result {ℓ} (A : Type ℓ) : Type ℓ where
  result : A → Result A
  thrown : String → Result A

-- `item` is `operator[]` and the `value_…` are `value(key, default)`, which throw on a value that
-- is no object, or of another type than the default's. `dump` throws on a text that is not UTF-8.
pub record JsonLib : Type 1 where
  pub Json : Type 0
  pub null : Json
  pub object : List (String × Json) → Json
  pub array : List Json → Json
  pub text : String → Json
  pub number : ℤ → Json
  pub boolean : Bool → Json
  pub from_cbor : List ℕ → Result Json
  pub to_cbor : Json → List ℕ
  pub dump : Json → Result String
  pub is_object : Json → Bool
  pub contains : String → Json → Bool
  pub item : String → Json → Result Json
  pub value_text : String → String → Json → Result String
  pub value_int : String → ℤ → Json → Result ℤ
  pub value_bool : String → Bool → Json → Result Bool
  pub value_json : String → Json → Json → Result Json
