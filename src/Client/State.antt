-- ===== src/Client/State.antt =====
-- The state of a client of rustygear/src/client.rs. A channel of tokio is the number of the
-- channel, or one of the lists of this state; a list holds what was sent and not yet received, the
-- oldest first. The tables behind `senders_by_handle` and `jobs_tx_by_func` are locked only where
-- nothing panics, so they are kept without their mutexes.
use rustygear.Mutex.{Mutex, unlocked}
use rustygear.Outcome.{Outcome, ok, err, panic}
use rustygear.Packet.{Packet}
use rustygear.Prelude.{
  ℕ, suc, Bool, true, Option, none, some, List, [], Bytes, nat_eq, if◌then◌else◌,
}
use rustygear.Prelude.Assoc
use rustygear.Prelude.Assoc.{Map}

pub record JobStatus : Type 0 where
  pub handle : Bytes
  pub known : Bool
  pub running : Bool
  pub numerator : ℕ
  pub denominator : ℕ
  pub waiting : ℕ

pub data WorkUpdate : Type 0 where
  complete work_data warning exception : Bytes → Bytes → WorkUpdate
  status : Bytes → ℕ → ℕ → WorkUpdate
  fail : Bytes → WorkUpdate

pub record WorkerJob : Type 0 where
  pub handle : Bytes
  pub function : Bytes
  pub payload : Bytes
  pub sink_tx : ℕ

pub record ClientJob : Type 0 where
  pub handle : Bytes
  pub response_rx : ℕ

-- What is its own for each connection. The rest of the fields are shared with the client.
pub record ClientHandler : Type 0 where
  pub client_id : Option Bytes
  pub sink_tx : ℕ

-- `conns` has the cells of the handlers. `sinks`, `updates` and `assigned` have the messages for
-- the connections, for the responses to submitted jobs and for the functions of a worker, each
-- with its channel; `closed` has the channels that nobody receives from any more.
pub record Client : Type 0 where
  pub servers : List Bytes
  pub conns : Mutex (List ℕ)
  pub handlers : Map ℕ (Mutex ClientHandler)
  pub connected : List Bool
  pub client_id : Option Bytes
  pub senders_by_handle : Map Bytes ℕ
  pub jobs_tx_by_func : Map Bytes ℕ
  pub echo : List Bytes
  pub job_created : List Bytes
  pub status_res : List JobStatus
  pub error : List (Bytes × Bytes)
  pub worker_job : List WorkerJob
  pub sinks : List (ℕ × Packet)
  pub updates : List (ℕ × WorkUpdate)
  pub assigned : List (ℕ × WorkerJob)
  pub closed : List ℕ
  pub next_channel : ℕ

unfoldable pub new : Client
new = record {
  servers = [];
  conns = unlocked [];
  handlers = [];
  connected = [];
  client_id = none;
  senders_by_handle = [];
  jobs_tx_by_func = [];
  echo = [];
  job_created = [];
  status_res = [];
  error = [];
  worker_job = [];
  sinks = [];
  updates = [];
  assigned = [];
  closed = [];
  next_channel = 0;
}

abbrev pub C : Type 0 → Type 0
C A = Client → Outcome A × Client

module _ {A : Type 0} where
  abbrev pub pure : A → C A
  pure a st = (ok a, st)

  abbrev pub fails : Outcome A → C A
  fails r st = (r, st)

  -- A scope that holds a guard, with what a panic in it does to the mutex.
  abbrev pub release : (Client → Client) → Outcome A × Client → Outcome A × Client
  release poison (ok a, st) = (ok a, st)
  release poison (err e, st) = (err e, st)
  release poison (panic, st) = (panic, poison st)

module _ {A B : Type 0} where
  abbrev pub continue : Outcome A × Client → (A → C B) → Outcome B × Client
  continue (ok a, st) f = f a st
  continue (err e, st) f = (err e, st)
  continue (panic, st) f = (panic, st)

  infixl 5 ◌>>=◌ ◌>>◌
  abbrev pub ◌>>=◌ : C A → (A → C B) → C B
  ◌>>=◌ m f st = continue (m st) f

  abbrev pub ◌>>◌ : C A → C B → C B
  m >> n = m >>= λ _. n

abbrev pub modify : (Client → Client) → C (Unit {0})
modify f st = (ok tt, f st)

abbrev pub poison_conns : Client → Client
poison_conns st = record st { conns = record st.conns { poisoned = true } }

abbrev pub poison_handler : ℕ → Client → Client
poison_handler k st = elim (Assoc.get k st.handlers) [
  | none ↦ st
  | some c ↦ record st { handlers = Assoc.insert k (record c { poisoned = true }) st.handlers }
]

module _ {A : Type 0} where
  -- `self.conns.lock().unwrap()`, for a scope.
  unfoldable pub with_conns : (List ℕ → C A) → C A
  with_conns m st =
      if st.conns.poisoned then (panic, st) else release poison_conns (m st.conns.value st)

  abbrev pub at_handler : (ClientHandler → C A) → Option (Mutex ClientHandler) → C A
  at_handler m none = fails panic
  at_handler m (some c) = if c.poisoned then fails panic else m c.value

  -- `conn.lock().unwrap()`, for a scope; a reference always has its cell.
  unfoldable pub with_handler : ℕ → (ClientHandler → C A) → C A
  with_handler k m st = release (poison_handler k) (at_handler m (Assoc.get k st.handlers) st)

-- `channel(100)`
unfoldable pub channel : C ℕ
channel st = (ok st.next_channel, record st { next_channel = suc st.next_channel })
