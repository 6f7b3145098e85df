-- ===== src/Dds/External.antt =====
-- What `DdsManager` takes from elsewhere: the RTI library and the factories and type table that the
-- build generates from IDL. Objects are handles; `World` is the state outside the manager, and a
-- call that throws gives the exception's message. `Qos` is a `QosPack` of the profile store, whose
-- `find_or_reload` may read files. No law is assumed of any of these.
use connext_triad.Prelude.{ℕ, String, Bool, Option}

pub data Attempt : Type 0 where
  gives : ℕ → Attempt
  fails : String → Attempt

pub data Done : Type 0 where
  done : Done
  raised : String → Done

pub record Rti : Type 1 where
  pub World : Type 0
  pub Qos : Type 0
  pub find_or_reload : String → String → World → Option Qos × World
  pub known_type : String → Bool
  pub new_participant : Option Qos → World → Attempt × World
  pub new_publisher : ℕ → Option Qos → World → Attempt × World
  pub new_subscriber : ℕ → Option Qos → World → Attempt × World
  pub new_topic : String → ℕ → String → World → Attempt × World
  pub set_topic_qos : ℕ → Qos → World → Done × World
  pub new_writer : String → ℕ → ℕ → Option Qos → World → Attempt × World
  pub new_reader : String → ℕ → ℕ → Option Qos → World → Attempt × World
  pub set_listener : ℕ → World → Done × World
  pub attach_status : ℕ → World → Done × World
  pub attach_read : ℕ → World → Done × World
  pub detach_status : ℕ → World → Done × World
  pub detach_read : ℕ → World → Done × World
