-- ===== src/Config.antt =====
-- RtpDdsGateway/src/app_config.cpp and RtpDdsGateway/include/app_config.hpp: the settings of the
-- gateway, which a JSON file overrides, and the thread that reads the file again every second. The
-- settings are read and written under one mutex, so a turn of the thread is one step.
pub mod Watch
mod Tests
use connext_triad.Prelude.{
  ℕ, ℤ, pos, String, Bool, true, false, Option, none, some, List, [], ◌∷◌, not, ◌||◌, ◌&&◌, ◌==◌,
  string_eq, if◌then◌else◌,
}
use connext_triad.Rpc.Json.{JsonLib, Result, result, thrown}

pub record NetworkConfig : Type 0 where
  pub role : String
  pub ip : String
  pub port : ℕ

pub record DdsConfig : Type 0 where
  pub qos_dir : String
  pub mode : String

pub record LogConfig : Type 0 where
  pub file_output : Bool
  pub log_dir : String
  pub file_name : String
  pub level : String
  pub console_output : Bool
  pub max_file_size_mb : ℤ
  pub max_backup_files : ℤ
  pub rti_log_file : String

pub record StatsConfig : Type 0 where
  pub enabled : Bool
  pub file_output : Bool
  pub file_dir : String
  pub file_name : String
  pub format : String

pub record AppConfig : Type 0 where
  pub network : NetworkConfig
  pub dds : DdsConfig
  pub logging : LogConfig
  pub statistics : StatsConfig
  pub config_path : String
  pub watching : Bool

unfoldable pub defaults : AppConfig
defaults = record {
  network = record { role = "server"; ip = "0.0.0.0"; port = 25000 };
  dds = record { qos_dir = "qos"; mode = "waitset" };
  logging = record {
    file_output = true;
    log_dir = "logs";
    file_name = "agent.log";
    level = "info";
    console_output = true;
    max_file_size_mb = pos 10;
    max_backup_files = pos 5;
    rti_log_file = "";
  };
  statistics = record {
    enabled = false;
    file_output = false;
    file_dir = "logs";
    file_name = "stats.log";
    format = "text";
  };
  config_path = "";
  watching = false;
}

-- An exception keeps the assignments made before it.
abbrev pub Load : Type 0 → Type 0 → Type 0
Load S A = S → Result A × S

module _ {S : Type 0} where
  infixl 5 ◌>>=◌ ◌>>◌
  abbrev pub ◌>>=◌ : {A B : Type 0} → Load S A → (A → Load S B) → Load S B
  ◌>>=◌ op f s = let (r, s') = op s in elim r [ result a ↦ f a s' | thrown e ↦ (thrown e, s') ]

  abbrev pub ◌>>◌ : {B : Type 0} → Load S (Unit {0}) → Load S B → Load S B
  op >> k = op >>= λ _. k

  -- `field = j.value(key, field)`
  abbrev pub assign : {A : Type 0} → (S → Result A) → (A → S → S) → Load S (Unit {0})
  assign read put s = elim (read s) [ result v ↦ (result tt, put v s) | thrown e ↦ (thrown e, s) ]

-- `value_u16` is `value(key, default)` at `uint16_t`.
module _ (lib : JsonLib) (value_u16 : String → ℕ → lib.Json → Result ℕ) where
  open lib use {Json, contains, item, value_text, value_int, value_bool}

  unfoldable pub load_network : Json → Load NetworkConfig (Unit {0})
  load_network net = do
    assign (λ c. value_text "role" c.role net) (λ v c. record c { role = v })
    assign (λ c. value_text "ip" c.ip net) (λ v c. record c { ip = v })
    assign (λ c. value_u16 "port" c.port net) (λ v c. record c { port = v })

  unfoldable pub load_dds : Json → Load DdsConfig (Unit {0})
  load_dds dds = do
    assign (λ c. value_text "qos_dir" c.qos_dir dds) (λ v c. record c { qos_dir = v })
    assign (λ c. value_text "mode" c.mode dds) (λ v c. record c { mode = v })

  unfoldable pub load_logging : Json → Load LogConfig (Unit {0})
  load_logging log = do
    assign (λ c. value_bool "file_output" c.file_output log) (λ v c. record c { file_output = v })
    assign (λ c. value_text "log_dir" c.log_dir log) (λ v c. record c { log_dir = v })
    assign (λ c. value_text "file_name" c.file_name log) (λ v c. record c { file_name = v })
    assign (λ c. value_text "level" c.level log) (λ v c. record c { level = v })
    assign (λ c. value_bool "console_output" c.console_output log)
        (λ v c. record c { console_output = v })
    assign (λ c. value_int "max_file_size_mb" c.max_file_size_mb log)
        (λ v c. record c { max_file_size_mb = v })
    assign (λ c. value_int "max_backup_files" c.max_backup_files log)
        (λ v c. record c { max_backup_files = v })
    assign (λ c. value_text "rti_log_file" c.rti_log_file log)
        (λ v c. record c { rti_log_file = v })

  unfoldable pub load_statistics : Json → Load StatsConfig (Unit {0})
  load_statistics s = do
    assign (λ c. value_bool "enabled" c.enabled s) (λ v c. record c { enabled = v })
    assign (λ c. value_bool "file_output" c.file_output s) (λ v c. record c { file_output = v })
    assign (λ c. value_text "file_dir" c.file_dir s) (λ v c. record c { file_dir = v })
    assign (λ c. value_text "file_name" c.file_name s) (λ v c. record c { file_name = v })
    assign (λ c. value_text "format" c.format s) (λ v c. record c { format = v })

  -- `if (j.contains(name)) { … }` on one of the four structures.
  unfoldable pub section :
      {S : Type 0}
      → String
      → (Json → Load S (Unit {0}))
      → (AppConfig → S)
      → (S → AppConfig → AppConfig)
      → Json
      → Load AppConfig (Unit {0})
  section name load get put j c = elim (contains name j) [
    | false ↦ (result tt, c)
    | true ↦ elim (item name j) [
      | thrown e ↦ (thrown e, c)
      | result part ↦ ((load part (get c)).0, put (load part (get c)).1 c)
    ]
  ]

  unfoldable pub load_json : Json → Load AppConfig (Unit {0})
  unfolding section load_network load_dds load_logging load_statistics
  load_json j = do
    section "network" load_network (λ c. c.network) (λ v c. record c { network = v }) j
    section "dds" load_dds (λ c. c.dds) (λ v c. record c { dds = v }) j
    section "logging" load_logging (λ c. c.logging) (λ v c. record c { logging = v }) j
    section "statistics" load_statistics (λ c. c.statistics) (λ v c. record c { statistics = v }) j

  -- The file does not open, or is read as JSON, which may throw.
  unfoldable pub load : Option (Result Json) → AppConfig → Bool × AppConfig
  unfolding load_json
  load none c = (false, c)
  load (some (thrown e)) c = (false, c)
  load (some (result j)) c =
      let (r, c') = load_json j c in (elim r [ result _ ↦ true | thrown e ↦ false ], c')

  -- `start_watching`, which does nothing while the thread runs.
  unfoldable pub start_watching : String → AppConfig → AppConfig
  start_watching path c = if c.watching then c else record c { config_path = path; watching = true }

  unfoldable pub stop_watching : AppConfig → AppConfig
  stop_watching c = record c { watching = false }
