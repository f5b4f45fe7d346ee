-- ===== src/Server.antt =====
-- rustygeard/src/server.rs: what the accept loop, the reader and the writer of a connection do to
-- the shared tables.
pub mod Garbled
pub mod Run
pub mod Stuck
use rustygear.Outcome.{Outcome, ok, err, panic}
use rustygear.Packet.{Packet}
use rustygear.Prelude.{
  some, ℕ, ◌≡◌, Bool, false, none, [], ◌∷◌, ◌++◌, arith, Bytes, nat_eq, ◌==◌, if◌then◌else◌,
}
use rustygear.Prelude.Assoc
use rustygear.Prelude.Ordered
use rustygear.Prelude.Assoc.{Map, get-insert, get-remove}
use rustygear.Service.{call}
use rustygear.Service.Lifecycle.{new_service}
use rustygear.Service.State.{
  Server, GearmanService, M, pure, modify, ◌>>=◌, ◌>>◌, with_senders, with_conns, allocate,
}
use rustygear.Queues.{new_job_storage}
use rustygear.Worker.{WrappingSet, new_workers}

-- The shared tables of `GearmanServer::run`, before a connection comes.
unfoldable pub new_server : {F : Type 0} → Server F
unfolding new_job_storage new_workers
new_server = record {
  queues = record { value = new_job_storage; poisoned = false };
  workers = record { value = new_workers; poisoned = false };
  job_count = 0;
  senders = record { value = []; poisoned = false };
  cells = [];
  workers_by_conn = record { value = []; poisoned = false };
  job_waiters = record { value = []; poisoned = false };
  next_alloc = 0;
  sent = [];
}

module _ {F : Type 0} where
  abbrev pub put_senders : Map ℕ ℕ → Server F → Server F
  put_senders m st = record st { senders = record st.senders { value = m } }

  abbrev pub put_conns : Map ℕ ℕ → Server F → Server F
  put_conns m st = record st { workers_by_conn = record st.workers_by_conn { value = m } }

  -- The writer could not send: the connection leaves both tables.
  unfoldable pub hang_up : ℕ → M F (Unit {0})
  hang_up conn_id = do
    with_conns λ conns. modify (put_conns (Assoc.remove conn_id conns))
    with_senders λ senders. modify (put_senders (Assoc.remove conn_id senders))

  -- An answer goes to the channel of the connection; an error is dropped.
  unfoldable pub respond : ℕ → Outcome Packet × Server F → Outcome (Unit {0}) × Server F
  respond tx (ok response, st) = (ok tt, record st { sent = st.sent ++ (tx, response) ∷ [] })
  respond tx (err e, st) = (ok tt, st)
  respond tx (panic, st) = (panic, st)

module _ {F : Type 0} ⦃w : WrappingSet F⦄ where
  -- A new connection with the channel `tx`.
  unfoldable pub accept : ℕ → ℕ → Bytes → M F GearmanService
  unfolding new_service
  accept conn_id tx peer_addr = do
    with_senders λ senders. modify (put_senders (Assoc.insert conn_id tx senders))
    service ← new_service conn_id peer_addr
    with_conns λ conns. modify (put_conns (Ordered.insert conn_id service.worker conns))
    pure service

  -- One round of the loop of the reader.
  unfoldable pub serve : Bool → GearmanService → ℕ → Packet → M F (Unit {0})
  unfolding respond
  serve debug service tx frame st = respond tx (call debug service frame st)

  -- While neither table is poisoned, a connection is found under its number with its channel and
  -- its worker once it is accepted and under no number once its writer has failed, and every other
  -- connection stands in both tables as before.
  pub hang_up-accept :
      (c d tx : ℕ) (addr : Bytes) (st : Server F)
      → st.senders.poisoned ≡ false
      → st.workers_by_conn.poisoned ≡ false
      → let up = (accept c tx addr st).1 in
        let down = (hang_up c up).1 in
        (Assoc.get d up.senders.value ≡ (if c == d then some tx else Assoc.get d st.senders.value))
        × (Assoc.get d up.workers_by_conn.value
            ≡ (if c == d then some st.next_alloc else Assoc.get d st.workers_by_conn.value))
        × (Assoc.get d down.senders.value ≡ (if c == d then none else Assoc.get d st.senders.value))
        × (Assoc.get d down.workers_by_conn.value
            ≡ (if c == d then none else Assoc.get d st.workers_by_conn.value))
  unfolding accept hang_up with_senders with_conns allocate
  hang_up-accept c d tx addr st hs hc =
      let on = Assoc.insert c tx st.senders.value in
      let known = Ordered.insert c st.next_alloc st.workers_by_conn.value in
      rw (hs, hc, accept, hang_up)
        (
          get-insert c d tx st.senders.value,
          Ordered.get-insert c d st.next_alloc st.workers_by_conn.value,
          ground (arith, get-remove c d on, get-insert c d tx st.senders.value),
          ground (
            arith,
            get-remove c d known,
            Ordered.get-insert c d st.next_alloc st.workers_by_conn.value,
          ),
        )
