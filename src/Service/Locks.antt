-- ===== src/Service/Locks.antt =====
-- A scope whose mutex is not poisoned runs its body.
use rustygear.Outcome.{Outcome, panic}
use rustygear.Prelude.{
  ℕ, ◌≡◌, ap, ◌∙◌, Bool, false, Option, some, Bytes, bytes_eq, nat_eq, if◌then◌else◌, List,
}
use rustygear.Prelude.Assoc
use rustygear.Prelude.Assoc.{Map}
use rustygear.Queues.{JobStorage}
use rustygear.Service.State.{
  Mutex, Server, M, release, guarded, with_queues, with_workers, with_senders, with_waiters,
  with_conns, poison_conns, with_worker, at_cell, cell_poisoned, poison_queues, poison_workers,
  poison_senders, poison_waiters, poison_cell,
}
use rustygear.Worker.{Workers, Worker}

module _ {F A : Type 0} where
  guarded-open :
      (poisoned : Server F → Bool) (poison : Server F → Server F) (m : M F A) (st : Server F)
      → poisoned st ≡ false
      → guarded poisoned poison m st ≡ release poison (m st)
  guarded-open poisoned poison m st h =
      ap
        (λ (b : Bool).
          let r : Outcome A × Server F = if b then (panic, st) else release poison (m st) in r)
        h

  pub with_queues-open :
      (m : JobStorage → M F A) (st : Server F)
      → st.queues.poisoned ≡ false
      → with_queues m st ≡ release poison_queues (m st.queues.value st)
  unfolding with_queues
  with_queues-open m st h =
      guarded-open (λ st. st.queues.poisoned) poison_queues (λ st. m st.queues.value st) st h

  pub with_workers-open :
      (m : Workers → M F A) (st : Server F)
      → st.workers.poisoned ≡ false
      → with_workers m st ≡ release poison_workers (m st.workers.value st)
  unfolding with_workers
  with_workers-open m st h =
      guarded-open (λ st. st.workers.poisoned) poison_workers (λ st. m st.workers.value st) st h

  pub with_senders-open :
      (m : Map ℕ ℕ → M F A) (st : Server F)
      → st.senders.poisoned ≡ false
      → with_senders m st ≡ release poison_senders (m st.senders.value st)
  unfolding with_senders
  with_senders-open m st h =
      guarded-open (λ st. st.senders.poisoned) poison_senders (λ st. m st.senders.value st) st h

  pub with_waiters-open :
      (m : Map Bytes (List ℕ) → M F A) (st : Server F)
      → st.job_waiters.poisoned ≡ false
      → with_waiters m st ≡ release poison_waiters (m st.job_waiters.value st)
  unfolding with_waiters
  with_waiters-open m st h =
      guarded-open (λ st. st.job_waiters.poisoned) poison_waiters (λ st. m st.job_waiters.value st)
        st h

  pub with_conns-open :
      (m : Map ℕ ℕ → M F A) (st : Server F)
      → st.workers_by_conn.poisoned ≡ false
      → with_conns m st ≡ release poison_conns (m st.workers_by_conn.value st)
  unfolding with_conns
  with_conns-open m st h =
      guarded-open (λ st. st.workers_by_conn.poisoned) poison_conns
        (λ st. m st.workers_by_conn.value st) st h

  pub with_worker-open :
      (k : ℕ) (m : Worker F → M F A) (st : Server F) (c : Mutex (Worker F))
      → Assoc.get k st.cells ≡ some c
      → c.poisoned ≡ false
      → with_worker k m st ≡ release (poison_cell k) (m c.value st)
  unfolding with_worker
  with_worker-open k m st c e h =
      guarded-open (cell_poisoned k) (poison_cell k) (λ st. at_cell m (Assoc.get k st.cells) st) st
        (rw (e, cell_poisoned) h)
      ∙ ap (λ (o : Option (Mutex (Worker F))). release (poison_cell k) (at_cell m o st)) e
