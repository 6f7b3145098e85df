-- ===== src/Log/Storage.antt =====
-- The file system and the console as DkmRtpIpc/src/triad_log.cpp uses them, as a parameter. A call
-- that throws gives no value.
use connext_triad.Prelude.{arith, ℕ, ℤ, String, Bool, true, false, Option, none, some, ◌≡◌}
use connext_triad.Xml.Text.{Bytes}

-- `base_filename_` in the directory of the logger, or that name with `.` and a number.
pub data LogFile : Type 0 where
  agent_log : LogFile
  backup : ℤ → LogFile

abbrev pub F : Type 0 → Type 0 → Type 0
F World A = World → Option A × World

module _ {World : Type 0} where
  infixl 5 ◌>>=◌ ◌>>◌
  abbrev pub ◌>>=◌ : {A B : Type 0} → F World A → (A → F World B) → F World B
  ◌>>=◌ op f w = let (r, w') = op w in elim r [ some a ↦ f a w' | none ↦ (none, w') ]

  abbrev pub ◌>>◌ : {B : Type 0} → F World (Unit {0}) → F World B → F World B
  op >> k = op >>= λ _. k

  abbrev pub done : {A : Type 0} → A → F World A
  done a w = (some a, w)

  abbrev pub when : Bool → F World (Unit {0}) → F World (Unit {0})
  when true op = op
  when false op = done tt

  -- What follows a call that succeeds.
  pub after_done :
      {B : Type 0} (op : F World (Unit {0})) (k : F World B) (w : World)
      → (op w).0 ≡ some tt
      → (op >> k) w ≡ k (op w).1
  after_done op k w e = ground (arith, e)

  -- The handler of an exception.
  abbrev pub caught : (World → World) → Option (Unit {0}) × World → World
  caught handler (some _, w) = w
  caught handler (none, w) = handler w

-- `append` opens, writes and closes; it does nothing if the file does not open. `to_string` prints
-- an `int` and `filename` is the last part of a path.
pub record Files (World : Type 0) : Type 0 where
  pub exists : LogFile → F World Bool
  pub file_size : LogFile → F World ℕ
  pub remove : LogFile → F World (Unit {0})
  pub rename : LogFile → LogFile → F World (Unit {0})
  pub append : LogFile → Bytes → F World (Unit {0})
  pub create_directories : String → F World (Unit {0})
  pub console : Bytes → World → World
  pub errors : World → World
  pub to_string : ℤ → Bytes
  pub filename : Bytes → Bytes
