-- ===== src/Threads/Handlers.antt =====
-- rustygeard/src/service.rs: the handlers for workers, for the progress of a job and for status, as
-- programs that lock.
use rustygear.Constants
use rustygear.Job.{Arc, Job}
use rustygear.Outcome.{ok}
use rustygear.Packet.{Packet, new_res, no_response, next_field}
use rustygear.Prelude.{ℕ, Option, none, some, Bytes, bytes_eq, nat_eq}
use rustygear.Prelude.Assoc
use rustygear.Prelude.Assoc.{Map}
use rustygear.Queues.{get_job, remove_job}
use rustygear.Service.Handlers.{job_answer, is_some, status_body}
use rustygear.Service.State.{
  GearmanService, modify, put_queues, put_workers, put_waiters, put_worker, held_by,
}
use rustygear.Worker.{
  WrappingSet, Worker, can_do, cant_do, wakeup, sleep, unassign_job, get_assigned_job,
}
use rustygear.Threads.Program.{
  Lock, within, Prog, pure, atomic, ◌>>=◌, ◌>>◌, workers_scope, waiters_scope, worker_scope,
}
use rustygear.Threads.Submit.{send_all_steps}

module _ {F : Type 0} ⦃w : WrappingSet F⦄ where
  unfoldable pub can_do_steps : GearmanService → Packet → Prog F Packet
  can_do_steps svc packet = worker_scope svc.worker λ worker. do
    atomic (modify (put_worker svc.worker (can_do packet.body worker)))
    workers_scope λ workers. atomic λ st.
        let (worker', workers') = wakeup (can_do packet.body worker) svc.conn_id workers in
        (ok tt, put_workers workers' (put_worker svc.worker worker' st))
    pure no_response

  unfoldable pub cant_do_steps : GearmanService → Packet → Prog F Packet
  cant_do_steps svc packet = worker_scope svc.worker λ worker. do
    atomic (modify (put_worker svc.worker (cant_do packet.body worker)))
    pure no_response

  unfoldable pub pre_sleep_steps : GearmanService → Prog F Packet
  pre_sleep_steps svc = worker_scope svc.worker λ worker. workers_scope λ workers. atomic λ st.
      let (worker', workers') = sleep worker svc.conn_id workers in
      (ok no_response, put_workers workers' (put_worker svc.worker worker' st))

  unfoldable pub take_steps : GearmanService → Worker F → Prog F (Option Arc)
  take_steps svc worker = within Lock.queues (
      atomic λ st.
        let (job, worker', s') = get_job (held_by st.cells) worker st.queues.value in
        (ok job, put_queues s' (put_worker svc.worker worker' st)))

  unfoldable pub grab_steps : GearmanService → ℕ → (Job → Bytes) → Prog F Packet
  unfolding take_steps
  grab_steps svc ptype body =
      worker_scope svc.worker
        λ worker. do job ← take_steps svc worker; pure (job_answer ptype body job)

module _ {F : Type 0} where
  unfoldable pub forget_steps : Option Arc → Prog F (Unit {0})
  forget_steps none = pure tt
  forget_steps (some a) =
      within Lock.queues
        (atomic (modify λ st. put_queues (remove_job a.job.unique st.queues.value) st))

  unfoldable pub tell_steps : Bytes → Packet → Prog F (Unit {0})
  tell_steps handle packet = waiters_scope λ waiters. elim (Assoc.get handle waiters) [
    | none ↦ pure tt
    | some conns ↦ do
      atomic (modify (put_waiters (Assoc.remove handle waiters)))
      send_all_steps conns packet
  ]

  unfoldable pub complete_steps : GearmanService → Packet → Prog F Packet
  unfolding forget_steps tell_steps
  complete_steps svc packet =
      let handle : Bytes = (next_field packet.body).0 in
      worker_scope svc.worker λ worker. do
        forget_steps (get_assigned_job handle worker)
        atomic (modify (put_worker svc.worker (unassign_job handle worker)))
        tell_steps handle packet
        pure no_response

  unfoldable pub update_steps : GearmanService → Packet → Prog F Packet
  update_steps svc packet =
      let handle : Bytes = (next_field packet.body).0 in
      waiters_scope λ waiters. elim (Assoc.get handle waiters) [
        | none ↦ pure no_response
        | some conns ↦ do send_all_steps conns packet; pure no_response
      ]

  unfoldable pub client_id_steps : GearmanService → Packet → Prog F Packet
  client_id_steps svc packet = worker_scope svc.worker λ worker. do
    atomic (modify (put_worker svc.worker (record worker { client_id = packet.body })))
    pure no_response

  -- The waiters are free again when the worker is locked.
  unfoldable pub get_status_steps : GearmanService → Packet → Prog F Packet
  get_status_steps svc packet =
      let handle : Bytes = (next_field packet.body).0 in
      do
        known ← waiters_scope λ waiters. pure (is_some (Assoc.get handle waiters))
        running ← worker_scope svc.worker λ worker. pure (is_some (get_assigned_job handle worker))
        pure (new_res Constants.status_res (status_body handle known running))
