-- ===== src/Outcome.antt =====
-- How a call ends: with a value, with an `io::Error`, or by a panic.
use rustygear.Prelude.{ℕ, Bytes}

-- The errors that the programs make: `io::Error::new(ErrorKind::Other, message)`, and in
-- connect_failed the error of `TcpStream::connect`.
pub data IoError : Type 0 where
  invalid_string : IoError
  invalid_packet_type : ℕ → IoError
  no_connections send_failed connection_closed connect_failed : IoError
  unregistered_function : Bytes → IoError

pub data Outcome {ℓ} (A : Type ℓ) : Type ℓ where
  ok : A → Outcome A
  err : IoError → Outcome A
  panic : Outcome A
