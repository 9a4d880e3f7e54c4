-- ===== src/Outcome.antt =====
-- What the code returns: `Result<T, anyhow::Error>`, with the panics of slices, of checked
-- arithmetic and of capacities. An `anyhow::Error` is modelled by the place that raises it, with
-- the numbers that its message shows.
pub mod Action
pub mod Keeps
use ractor_wormhole.Prelude.{ℕ, List, Bool, true, false}
use ractor_wormhole.Prelude.Int.{ℤ}

-- A Rust `String` and a `Vec<u8>` are both lists of bytes.
abbrev pub Bytes : Type 0
Bytes = List ℕ

pub data Error : Type 0 where
  -- transmaterialization/util.rs and default_implementations.rs
  buffer_size_mismatch : (expected got : ℕ) → Error
  expected_bytes : (expected got : ℕ) → Error
  exceeds_usize : ℕ → Error
  exceeds_isize : ℤ → Error
  invalid_utf8 : Error
  invalid_bool : ℕ → Error
  invalid_result : ℕ → Error
  invalid_option : ℕ → Error
  message : Bytes → Error
  -- the code that the derive macro writes
  end_of_data : (need have : ℕ) → Error
  length_exceeds_usize : Error
  not_consumed : (size consumed : ℕ) → Error
  unit_not_empty : ℕ → Error
  unknown_variant : Bytes → Error
  uninhabited : Error
  -- the actors
  decode_failed : Error
  actor_not_found : Error
  transmission_error : Error
  io_error : Error
  send_failed : Error
  ask_failed : Error
  spawn_failed : Error
  -- the byte-stream conduits
  unknown_message_type : ℕ → Error
  end_of_stream : Error

-- `stuck` is no value of the program: a loop of the model ran out of fuel.
pub data Outcome {ℓ} (A : Type ℓ) : Type ℓ where
  ok : A → Outcome A
  err : Error → Outcome A
  panic : Outcome A
  stuck : Outcome A

infixl 5 ◌>>=◌ ◌>>◌
abbrev pub ◌>>=◌ {ℓ κ} : {A : Type ℓ} {B : Type κ} → Outcome A → (A → Outcome B) → Outcome B
ok a >>= f = f a
err e >>= f = err e
panic >>= f = panic
stuck >>= f = stuck

abbrev pub ◌>>◌ {ℓ} : {B : Type ℓ} → Outcome (Unit {0}) → Outcome B → Outcome B
m >> k = m >>= λ _. k

-- `if !test { return Err(e) }`
abbrev pub ensure : Bool → Error → Outcome (Unit {0})
ensure true e = ok tt
ensure false e = err e
