-- ===== src/Threads/Does/Scopes.antt =====
-- The steps of the handlers and the scopes of `lock().unwrap()`, each as a program that does what
-- the handler does there.
use rustygear.Prelude.{
  ap, ◌∙◌, sym, refl, ℕ, ◌≤◌, ◌≡◌, inl, inr, Option-cases, Option, none, some, List, Bytes,
  bytes_eq, nat_eq,
}
use rustygear.Service.State
use rustygear.Service.State.{
  M, Server, panics, modify, spawn_send, put_worker, fetch_add, allocate, release, guarded,
  continue, with_queues, with_workers, with_senders, with_waiters, with_conns, with_worker, at_cell,
  Mutex,
}
use rustygear.Packet.{Packet}
use rustygear.Prelude.Assoc
use rustygear.Prelude.Assoc.{Map}
use rustygear.Queues.{JobStorage}
use rustygear.Worker.{Workers, Worker}
use rustygear.Threads.Order.{rank}
use rustygear.Threads.Tickets.{quiet}
use rustygear.Threads.Tickets.Draws.{fetch-Moves}
use rustygear.Threads.Program.{
  Lock, Prog, atomic, poisoned, poison, solo, ◌>>=◌, queues_scope, workers_scope, senders_scope,
  waiters_scope, conns_scope, worker_scope, read_queues, read_workers, read_senders, read_waiters,
  read_conns, read_cell, cell_value,
}
use rustygear.Threads.Does.{Does, after, calm-Does, bind-Does, within-Does}

module _ {F A : Type 0} where
  -- A job number is drawn for what follows.
  pub fetch-Does :
      {n : ℕ} (f : ℕ → M F A) (g : ℕ → Prog F A)
      → ((j : ℕ) → Does n (some j) (f j) (g j))
      → Does n none (State.◌>>=◌ fetch_add f) (atomic fetch_add >>= g)
  unfolding solo fetch_add
  fetch-Does f g h = record {
    alone = λ hs st. (h st.job_count).alone hs (fetch_add st).1;
    orders = λ hs b st. (inl refl, (h st.job_count).orders hs b);
    owns = λ st. (some st.job_count, (fetch-Moves st, (h st.job_count).owns));
  }

  pub allocate-Does :
      {n : ℕ} (t : Option ℕ) (f : ℕ → M F A) (g : ℕ → Prog F A)
      → ((k : ℕ) → Does n t (f k) (g k))
      → Does n t (State.◌>>=◌ allocate f) (atomic allocate >>= g)
  unfolding solo allocate
  allocate-Does t f g h = record {
    alone = λ hs st. (h st.next_alloc).alone hs (allocate st).1;
    orders = λ hs b st. (inl refl, (h st.next_alloc).orders hs b);
    owns = λ st. (t, (quiet t st (allocate st).1 refl refl, (h st.next_alloc).owns));
  }

module _ {F A : Type 0} where
  at_cell-cell_value :
      (o : Option (Mutex (Worker F))) (m : Worker F → M F A) (st : Server F)
      → at_cell m o st ≡ continue (cell_value o st) m
  at_cell-cell_value none m st = refl
  at_cell-cell_value (some c) m st = refl

module _ {F : Type 0} where
  cell_value-same :
      (o : Option (Mutex (Worker F))) (st : Server F)
      → ((cell_value o st).1.queues.value ≡ st.queues.value)
        × ((cell_value o st).1.job_count ≡ st.job_count)
  cell_value-same none st = (refl, refl)
  cell_value-same (some c) st = (refl, refl)

  pub put_worker-same :
      (k : ℕ) (w : Worker F) (st : Server F)
      → ((put_worker k w st).queues.value ≡ st.queues.value)
        × ((put_worker k w st).job_count ≡ st.job_count)
  put_worker-same k w st = elim (Option-cases (Assoc.get k st.cells)) [
    | inl e ↦ rw (e, put_worker) (refl, refl)
    | inr (c, e) ↦ rw (e, put_worker) (refl, refl)
  ]

  -- Changes of neither the storage nor the job count.
  pub panics-Does : {A : Type 0} {n : ℕ} → Does {F = F} {A = A} n none panics (atomic panics)
  panics-Does = calm-Does panics (λ st. (refl, refl))

  pub spawn_send-Does :
      {n : ℕ} (tx : ℕ) (p : Packet)
      → Does {F = F} n none (spawn_send tx p) (atomic (spawn_send tx p))
  unfolding spawn_send
  spawn_send-Does tx p = calm-Does (spawn_send tx p) (λ st. (refl, refl))

  pub put_worker-Does :
      {n : ℕ} (k : ℕ) (w : Worker F)
      → Does n none (modify (put_worker k w)) (atomic (modify (put_worker k w)))
  put_worker-Does k w = calm-Does (modify (put_worker k w)) (λ st. put_worker-same k w st)

module _ {F A : Type 0} {n : ℕ} where
  pub conns-Does :
      (m : Map ℕ ℕ → M F A) (g : Map ℕ ℕ → Prog F A)
      → n ≤ 0
      → ((s : Map ℕ ℕ) → Does 1 none (m s) (g s))
      → Does n none (with_conns m) (conns_scope g)
  unfolding with_conns poisoned poison rank
  conns-Does m g below h =
      within-Does Lock.conns (λ st. m st.workers_by_conn.value st) (atomic read_conns >>= g) below
        (bind-Does read_conns (atomic read_conns) m g (calm-Does read_conns (λ st. (refl, refl))) h)

  pub queues-Does :
      (m : JobStorage → M F A) (g : JobStorage → Prog F A)
      → n ≤ 2
      → ((s : JobStorage) → Does 3 none (m s) (g s))
      → Does n none (with_queues m) (queues_scope g)
  unfolding with_queues poisoned poison rank
  queues-Does m g below h =
      within-Does Lock.queues (λ st. m st.queues.value st) (atomic read_queues >>= g) below
        (bind-Does read_queues (atomic read_queues) m g (calm-Does read_queues (λ st. (refl, refl)))
          h)

  pub workers-Does :
      (m : Workers → M F A) (g : Workers → Prog F A)
      → n ≤ 3
      → ((s : Workers) → Does 4 none (m s) (g s))
      → Does n none (with_workers m) (workers_scope g)
  unfolding with_workers poisoned poison rank
  workers-Does m g below h =
      within-Does Lock.workers (λ st. m st.workers.value st) (atomic read_workers >>= g) below
        (bind-Does read_workers (atomic read_workers) m g
          (calm-Does read_workers (λ st. (refl, refl))) h)

  pub waiters-Does :
      (m : Map Bytes (List ℕ) → M F A) (g : Map Bytes (List ℕ) → Prog F A)
      → n ≤ 4
      → ((s : Map Bytes (List ℕ)) → Does 5 none (m s) (g s))
      → Does n none (with_waiters m) (waiters_scope g)
  unfolding with_waiters poisoned poison rank
  waiters-Does m g below h =
      within-Does Lock.waiters (λ st. m st.job_waiters.value st) (atomic read_waiters >>= g) below
        (bind-Does read_waiters (atomic read_waiters) m g
          (calm-Does read_waiters (λ st. (refl, refl))) h)

  pub senders-Does :
      (m : Map ℕ ℕ → M F A) (g : Map ℕ ℕ → Prog F A)
      → n ≤ 5
      → ((s : Map ℕ ℕ) → Does 6 none (m s) (g s))
      → Does n none (with_senders m) (senders_scope g)
  unfolding with_senders poisoned poison rank
  senders-Does m g below h =
      within-Does Lock.senders (λ st. m st.senders.value st) (atomic read_senders >>= g) below
        (bind-Does read_senders (atomic read_senders) m g
          (calm-Does read_senders (λ st. (refl, refl))) h)

  pub worker-Does :
      (k : ℕ) (m : Worker F → M F A) (g : Worker F → Prog F A)
      → n ≤ 1
      → ((s : Worker F) → Does 2 none (m s) (g s))
      → Does n none (with_worker k m) (worker_scope k g)
  unfolding with_worker poisoned poison rank
  worker-Does k m g below h =
      let body : Does 2 none (State.◌>>=◌ (read_cell k) m) (atomic (read_cell k) >>= g) =
        bind-Does (read_cell k) (atomic (read_cell k)) m g
          (calm-Does (read_cell k) (λ st. cell_value-same (Assoc.get k st.cells) st)) h in
      within-Does (Lock.cell k) (λ st. at_cell m (Assoc.get k st.cells) st)
        (atomic (read_cell k) >>= g) below
        (record {
          alone = λ hs st.
              body.alone hs st
              ∙ ap (after hs) (sym (at_cell-cell_value (Assoc.get k st.cells) m st));
          orders = body.orders;
          owns = body.owns;
        })
