-- ===== src/Mutex.antt =====
-- `std::sync::Mutex`: poisoned when a thread panics while it holds the guard.
use rustygear.Prelude.{Bool, false}

pub record Mutex (A : Type 0) : Type 0 where
  pub value : A
  pub poisoned : Bool

abbrev pub unlocked : {A : Type 0} → A → Mutex A
unlocked a = record { value = a; poisoned = false }
