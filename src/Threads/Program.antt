-- ===== src/Threads/Program.antt =====
-- Programs that lock: what a task of rustygeard/src/server.rs does, up to where others can act.
use rustygear.Prelude.Assoc.{Map}
use rustygear.Outcome.{Outcome, ok, err, panic}
use rustygear.Prelude.{Option, Bytes, ℕ, Bool, none, some, List, [], ◌∷◌, nat_eq, if◌then◌else◌}
use rustygear.Prelude.Assoc
use rustygear.Prelude.Assoc.{Map}
use rustygear.Queues.{JobStorage}
use rustygear.Service.State.{
  Mutex, M, Server, cell_poisoned, poison_queues, poison_workers, poison_senders, poison_waiters,
  poison_conns, poison_cell,
}
use rustygear.Worker.{Workers, Worker}

-- The mutexes of the shared state, and that of the worker of a cell.
pub data Lock : Type 0 where
  conns queues workers waiters senders : Lock
  cell : ℕ → Lock

abbrev pub unguarded : List Lock → List Lock
unguarded [] = []
unguarded (l ∷ hs) = hs

module _ {F : Type 0} where
  unfoldable pub poisoned : Lock → Server F → Bool
  poisoned Lock.conns st = st.workers_by_conn.poisoned
  poisoned Lock.queues st = st.queues.poisoned
  poisoned Lock.workers st = st.workers.poisoned
  poisoned Lock.waiters st = st.job_waiters.poisoned
  poisoned Lock.senders st = st.senders.poisoned
  poisoned (Lock.cell k) st = cell_poisoned k st

  unfoldable pub poison : Lock → Server F → Server F
  poison Lock.conns st = poison_conns st
  poison Lock.queues st = poison_queues st
  poison Lock.workers st = poison_workers st
  poison Lock.waiters st = poison_waiters st
  poison Lock.senders st = poison_senders st
  poison (Lock.cell k) st = poison_cell k st

  -- A panic unwinds the guards, the latest first.
  unfoldable pub poison_all : List Lock → Server F → Server F
  unfolding poison
  poison_all [] st = st
  poison_all (l ∷ hs) st = poison_all hs (poison l st)

-- `acquire` waits for a mutex and locks it, `unlock` drops the latest guard, and `act` is one
-- change of the state, after which the program goes on with what the change found.
pub data Prog (F A : Type 0) : Type 0 where
  done : Outcome A → Prog F A
  acquire : Lock → Prog F A → Prog F A
  unlock : Prog F A → Prog F A
  act : (Server F → Server F) → (Server F → Prog F A) → Prog F A

module _ {F A B : Type 0} where
  infixl 5 ◌>>=◌ ◌>>◌
  abbrev pub ◌>>=◌ : Prog F A → (A → Prog F B) → Prog F B
  done (ok a) >>= f = f a
  done (err e) >>= f = done (err e)
  done panic >>= f = done panic
  acquire l p >>= f = acquire l (p >>= f)
  unlock p >>= f = unlock (p >>= f)
  act g k >>= f = act g (λ st. k st >>= f)

  abbrev pub ◌>>◌ : Prog F A → Prog F B → Prog F B
  p >> q = p >>= λ _. q

module _ {F A : Type 0} where
  abbrev pub pure : A → Prog F A
  pure a = done (ok a)

  -- A part of a handler that other threads see as one change.
  abbrev pub atomic : M F A → Prog F A
  atomic m = act (λ st. (m st).1) (λ st. done (m st).0)

  -- The guard is dropped where the scope is left, by its end or by an early return.
  abbrev pub closing : Prog F A → Prog F A
  closing (done (ok a)) = unlock (done (ok a))
  closing (done (err e)) = unlock (done (err e))
  closing (done panic) = done panic
  closing (acquire l p) = acquire l (closing p)
  closing (unlock p) = unlock (closing p)
  closing (act g k) = act g (λ st. closing (k st))

  -- A scope that holds a guard.
  abbrev pub within : Lock → Prog F A → Prog F A
  within l p = acquire l (closing p)

  -- The program with no other thread beside it, from where it holds some guards: how it ends, the
  -- guards it holds then, and the state.
  unfoldable pub solo : Prog F A → List Lock → Server F → Outcome A × List Lock × Server F
  unfolding poisoned poison_all
  solo (done (ok a)) hs st = (ok a, hs, st)
  solo (done (err e)) hs st = (err e, hs, st)
  solo (done panic) hs st = (panic, [], poison_all hs st)
  solo (acquire l p) hs st =
      let rest = solo p (l ∷ hs) st in if poisoned l st then (panic, [], poison_all hs st) else rest
  solo (unlock p) hs st = solo p (unguarded hs) st
  solo (act f k) hs st = solo (k st) hs (f st)

-- What a scope reads when it has its guard.
module _ {F : Type 0} where
  abbrev pub read_queues : M F JobStorage
  read_queues st = (ok st.queues.value, st)

  abbrev pub read_workers : M F Workers
  read_workers st = (ok st.workers.value, st)

  abbrev pub read_senders : M F (Map ℕ ℕ)
  read_senders st = (ok st.senders.value, st)

  abbrev pub read_waiters : M F (Map Bytes (List ℕ))
  read_waiters st = (ok st.job_waiters.value, st)

  abbrev pub read_conns : M F (Map ℕ ℕ)
  read_conns st = (ok st.workers_by_conn.value, st)

  abbrev pub cell_value : Option (Mutex (Worker F)) → M F (Worker F)
  cell_value none st = (panic, st)
  cell_value (some c) st = (ok c.value, st)

  abbrev pub read_cell : ℕ → M F (Worker F)
  read_cell k st = cell_value (Assoc.get k st.cells) st

-- The scopes of `lock().unwrap()`.
module _ {F A : Type 0} where
  abbrev pub queues_scope : (JobStorage → Prog F A) → Prog F A
  queues_scope m = within Lock.queues (atomic read_queues >>= m)

  abbrev pub workers_scope : (Workers → Prog F A) → Prog F A
  workers_scope m = within Lock.workers (atomic read_workers >>= m)

  abbrev pub senders_scope : (Map ℕ ℕ → Prog F A) → Prog F A
  senders_scope m = within Lock.senders (atomic read_senders >>= m)

  abbrev pub waiters_scope : (Map Bytes (List ℕ) → Prog F A) → Prog F A
  waiters_scope m = within Lock.waiters (atomic read_waiters >>= m)

  abbrev pub conns_scope : (Map ℕ ℕ → Prog F A) → Prog F A
  conns_scope m = within Lock.conns (atomic read_conns >>= m)

  abbrev pub worker_scope : ℕ → (Worker F → Prog F A) → Prog F A
  worker_scope k m = within (Lock.cell k) (atomic (read_cell k) >>= m)
