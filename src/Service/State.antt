-- ===== src/Service/State.antt =====
-- The state that the connections of the server share, and its locks. A `Mutex` is poisoned when a
-- thread panics while it holds the guard; `lock().unwrap()` on a poisoned one panics.
pub use rustygear.Mutex.{Mutex}
use rustygear.Outcome.{Outcome, ok, err, panic}
use rustygear.Packet.{Packet}
use rustygear.Prelude.{
  ℕ, suc, ◌+◌, ◌%◌, ◌^◌, Bool, true, false, ◌||◌, Option, none, some, List, [], ◌∷◌, ◌++◌, Bytes,
  bytes_eq, nat_eq, if◌then◌else◌,
}
use rustygear.Prelude.Assoc
use rustygear.Prelude.Assoc.{Map}
use rustygear.Queues.{JobStorage, holds}
use rustygear.Worker.{Workers, Worker}

-- A worker is shared by its service and the table `workers_by_conn`: both have the number of its
-- cell. A `Sender` is the number of its channel. `sent` lists the sends that were spawned.
pub record Server (F : Type 0) : Type 0 where
  pub queues : Mutex JobStorage
  pub workers : Mutex Workers
  pub job_count : ℕ
  pub senders : Mutex (Map ℕ ℕ)
  pub cells : Map ℕ (Mutex (Worker F))
  pub workers_by_conn : Mutex (Map ℕ ℕ)
  pub job_waiters : Mutex (Map Bytes (List ℕ))
  pub next_alloc : ℕ
  pub sent : List (ℕ × Packet)

-- One connection's view.
pub record GearmanService : Type 0 where
  pub conn_id : ℕ
  pub worker : ℕ

abbrev pub M : Type 0 → Type 0 → Type 0
M F A = Server F → Outcome A × Server F

module _ {F A : Type 0} where
  abbrev pub pure : A → M F A
  pure a st = (ok a, st)

  abbrev pub panics : M F A
  panics st = (panic, st)

  -- What happens to a mutex whose guard is held while the result comes about.
  abbrev pub release : (Server F → Server F) → Outcome A × Server F → Outcome A × Server F
  release poison (ok a, st) = (ok a, st)
  release poison (err e, st) = (err e, st)
  release poison (panic, st) = (panic, poison st)

  -- A scope that holds a guard.
  abbrev pub guarded : (Server F → Bool) → (Server F → Server F) → M F A → M F A
  guarded poisoned poison m st = if poisoned st then (panic, st) else release poison (m st)

module _ {F A B : Type 0} where
  abbrev pub continue : Outcome A × Server F → (A → M F B) → Outcome B × Server F
  continue (ok a, st) f = f a st
  continue (err e, st) f = (err e, st)
  continue (panic, st) f = (panic, st)

  infixl 5 ◌>>=◌ ◌>>◌
  abbrev pub ◌>>=◌ : M F A → (A → M F B) → M F B
  ◌>>=◌ m f st = continue (m st) f

  abbrev pub ◌>>◌ : M F A → M F B → M F B
  m >> n = m >>= λ _. n

module _ {F : Type 0} where
  abbrev pub poison_queues : Server F → Server F
  poison_queues st = record st { queues = record st.queues { poisoned = true } }

  abbrev pub poison_workers : Server F → Server F
  poison_workers st = record st { workers = record st.workers { poisoned = true } }

  abbrev pub poison_senders : Server F → Server F
  poison_senders st = record st { senders = record st.senders { poisoned = true } }

  abbrev pub poison_waiters : Server F → Server F
  poison_waiters st = record st { job_waiters = record st.job_waiters { poisoned = true } }

  abbrev pub poison_conns : Server F → Server F
  poison_conns st = record st { workers_by_conn = record st.workers_by_conn { poisoned = true } }

  abbrev pub cell_poisoned : ℕ → Server F → Bool
  cell_poisoned k st = elim (Assoc.get k st.cells) [ none ↦ true | some c ↦ c.poisoned ]

  abbrev pub poison_cell : ℕ → Server F → Server F
  poison_cell k st = elim (Assoc.get k st.cells) [
    | none ↦ st
    | some c ↦ record st { cells = Assoc.insert k (record c { poisoned = true }) st.cells }
  ]

  abbrev pub put_queues : JobStorage → Server F → Server F
  put_queues s st = record st { queues = record st.queues { value = s } }

  abbrev pub put_workers : Workers → Server F → Server F
  put_workers ws st = record st { workers = record st.workers { value = ws } }

  abbrev pub put_waiters : Map Bytes (List ℕ) → Server F → Server F
  put_waiters m st = record st { job_waiters = record st.job_waiters { value = m } }

  abbrev pub put_worker : ℕ → Worker F → Server F → Server F
  put_worker k w st = elim (Assoc.get k st.cells) [
    | none ↦ st
    | some c ↦ record st { cells = Assoc.insert k (record c { value = w }) st.cells }
  ]

module _ {F A : Type 0} where
  unfoldable pub with_queues : (JobStorage → M F A) → M F A
  with_queues m = guarded (λ st. st.queues.poisoned) poison_queues λ st. m st.queues.value st

  unfoldable pub with_workers : (Workers → M F A) → M F A
  with_workers m = guarded (λ st. st.workers.poisoned) poison_workers λ st. m st.workers.value st

  unfoldable pub with_senders : (Map ℕ ℕ → M F A) → M F A
  with_senders m = guarded (λ st. st.senders.poisoned) poison_senders λ st. m st.senders.value st

  unfoldable pub with_waiters : (Map Bytes (List ℕ) → M F A) → M F A
  with_waiters m =
      guarded (λ st. st.job_waiters.poisoned) poison_waiters λ st. m st.job_waiters.value st

  unfoldable pub with_conns : (Map ℕ ℕ → M F A) → M F A
  with_conns m =
      guarded (λ st. st.workers_by_conn.poisoned) poison_conns λ st. m st.workers_by_conn.value st

  -- The scope of `worker.lock().unwrap()`; a reference always has its cell.
  abbrev pub at_cell : (Worker F → M F A) → Option (Mutex (Worker F)) → M F A
  at_cell m none = panics
  at_cell m (some c) = m c.value

  unfoldable pub with_worker : ℕ → (Worker F → M F A) → M F A
  with_worker k m =
      guarded (cell_poisoned k) (poison_cell k) λ st. at_cell m (Assoc.get k st.cells) st

module _ {F : Type 0} where
  abbrev pub modify : (Server F → Server F) → M F (Unit {0})
  modify f st = (ok tt, f st)

  -- `job_count.fetch_add(1, Relaxed)` on a `usize` of 64 bits.
  unfoldable pub fetch_add : M F ℕ
  fetch_add st = (ok st.job_count, record st { job_count = (st.job_count + 1) % 2 ^ 64 })

  -- `Arc::new`
  unfoldable pub allocate : M F ℕ
  allocate st = (ok st.next_alloc, record st { next_alloc = suc st.next_alloc })

  -- `runtime::Handle::current().spawn(async move { tx.send(packet).await })`
  unfoldable pub spawn_send : ℕ → Packet → M F (Unit {0})
  spawn_send tx p st = (ok tt, record st { sent = st.sent ++ (tx, p) ∷ [] })

  -- The allocations that some worker owns.
  unfoldable pub held_by : Map ℕ (Mutex (Worker F)) → ℕ → Bool
  held_by [] n = false
  held_by ((k, c) ∷ cs) n = holds n c.value.jobs || held_by cs n
