-- ===== src/Threads/Submit.antt =====
-- rustygeard/src/service.rs: `handle_submit_job` and the sends to other connections, as programs
-- that lock.
use rustygear.Job
use rustygear.Job.{Arc}
use rustygear.Outcome.{ok}
use rustygear.Packet.{Packet, next_field}
use rustygear.Prelude.{
  ℕ, Bool, Option, none, some, List, [], ◌∷◌, Bytes, bytes_eq, nat_eq, if◌then◌else◌,
}
use rustygear.Prelude.Assoc
use rustygear.Prelude.Assoc.{Map}
use rustygear.Queues.{coalesce_unique, add_job}
use rustygear.Service.State.{
  GearmanService, panics, put_queues, put_workers, put_waiters, fetch_add, allocate, spawn_send,
}
use rustygear.Service.Submit.{wake_one, handle_of, add_waiter, job_created}
use rustygear.Worker.{queue_wake}
use rustygear.Threads.Program.{
  Lock, within, Prog, pure, atomic, ◌>>=◌, ◌>>◌, workers_scope, senders_scope, waiters_scope,
}

module _ {F : Type 0} where
  unfoldable pub send_to_steps : ℕ → Packet → Prog F (Unit {0})
  send_to_steps conn_id p = senders_scope λ senders. elim (Assoc.get conn_id senders) [
    | none ↦ atomic panics
    | some tx ↦ atomic (spawn_send tx p)
  ]

  unfoldable pub send_all_steps : List ℕ → Packet → Prog F (Unit {0})
  unfolding send_to_steps
  send_all_steps [] p = pure tt
  send_all_steps (c ∷ cs) p = do send_to_steps c p; send_all_steps cs p

  unfoldable pub wake_all_steps : List ℕ → Prog F (Unit {0})
  unfolding wake_one
  wake_all_steps [] = pure tt
  wake_all_steps (c ∷ cs) = do
    senders_scope (λ senders. atomic (wake_one (Assoc.get c senders)))
    wake_all_steps cs

  unfoldable pub wake_list_steps : Bytes → Prog F (List ℕ)
  wake_list_steps fname = workers_scope λ workers.
      atomic λ st.
        let (conns, workers') = queue_wake fname workers in (ok conns, put_workers workers' st)

  unfoldable pub coalesce_steps : Bytes → Option ℕ → Prog F (Option Bytes)
  coalesce_steps unique remote = within Lock.queues (
      atomic λ st.
        let (found, s') = coalesce_unique unique remote st.queues.value in
        (ok found, put_queues s' st))

  unfoldable pub store_steps : Arc → ℕ → Option ℕ → Prog F (Unit {0})
  store_steps a priority remote = within Lock.queues (
      atomic λ st.
        let (result, s') = add_job a priority remote st.queues.value in (result, put_queues s' st))

  -- The counter is atomic, and needs no lock.
  unfoldable pub new_job_steps : ℕ → Option ℕ → Bytes → Bytes → Bytes → Prog F Bytes
  unfolding store_steps
  new_job_steps priority remote fname unique payload = do
    job_num ← atomic fetch_add
    n ← atomic allocate
    let handle = handle_of job_num
    store_steps (record { alloc = n; job = Job.new fname unique payload handle }) priority remote
    pure handle

  unfoldable pub create_steps : ℕ → Option ℕ → Bytes → Bytes → Bytes → Prog F Bytes
  unfolding wake_list_steps wake_all_steps new_job_steps
  create_steps priority remote fname unique payload = do
    conns ← wake_list_steps fname
    wake_all_steps conns
    new_job_steps priority remote fname unique payload

  unfoldable pub obtain_steps : ℕ → Option ℕ → Bytes → Bytes → Bytes → Option Bytes → Prog F Bytes
  unfolding create_steps
  obtain_steps priority remote fname unique payload (some handle) = pure handle
  obtain_steps priority remote fname unique payload none =
      create_steps priority remote fname unique payload

  unfoldable pub answer_steps : GearmanService → Bool → Bytes → Prog F Packet
  answer_steps svc wait handle = do
    waiters_scope λ m. atomic λ st. (ok tt, put_waiters (add_waiter handle wait svc.conn_id m) st)
    pure (job_created handle)

  -- The storage is free between the search for the unique id and the new job.
  unfoldable pub submit_steps : GearmanService → ℕ → Bool → Packet → Prog F Packet
  unfolding coalesce_steps obtain_steps answer_steps
  submit_steps svc priority wait packet =
      let remote : Option ℕ = if wait then some svc.conn_id else none in
      let (fname, fields) = next_field packet.body in
      let (unique, payload) = next_field fields in
      do
        found ← coalesce_steps unique remote
        handle ← obtain_steps priority remote fname unique payload found
        answer_steps svc wait handle
