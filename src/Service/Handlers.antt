-- ===== src/Service/Handlers.antt =====
-- rustygeard/src/service.rs: the handlers for workers, for the progress of a job, and for status.
use rustygear.Constants
use rustygear.Job.{Arc, Job}
use rustygear.Outcome.{ok}
use rustygear.Packet.{Packet, new_res, no_response, next_field}
use rustygear.Prelude.{
  ℕ, Bool, true, false, Option, none, some, [], ◌∷◌, ◌++◌, Bytes, bytes_eq, nat_eq, if◌then◌else◌,
}
use rustygear.Prelude.Assoc
use rustygear.Prelude.Assoc.{Map}
use rustygear.Queues.{get_job, remove_job}
use rustygear.Service.State.{
  GearmanService, M, pure, modify, ◌>>=◌, ◌>>◌, with_queues, with_workers, with_waiters,
  with_worker, put_queues, put_workers, put_waiters, put_worker, held_by,
}
use rustygear.Service.Submit.{send_all}
use rustygear.Text.Decimal.{show}
use rustygear.Worker.{
  WrappingSet, Worker, can_do, cant_do, wakeup, sleep, unassign_job, get_assigned_job,
}

-- The bodies of the three answers to a worker that asks for a job.
unfoldable pub assign_body : Job → Bytes
assign_body j = j.handle ++ 0 ∷ (j.fname ++ 0 ∷ j.payload)

unfoldable pub assign_uniq_body : Job → Bytes
assign_uniq_body j = j.handle ++ 0 ∷ (j.fname ++ 0 ∷ (j.unique ++ 0 ∷ j.payload))

unfoldable pub assign_all_body : Job → Bytes
assign_all_body j = j.handle ++ 0 ∷ (j.fname ++ 0 ∷ (j.unique ++ 0 ∷ (0 ∷ j.payload)))

unfoldable pub job_answer : ℕ → (Job → Bytes) → Option Arc → Packet
job_answer ptype body none = new_res Constants.no_job []
job_answer ptype body (some a) = new_res ptype (body a.job)

-- `format!("{}", n)` of the two flags
abbrev pub flag : Bool → Bytes
flag b = show (if b then 1 else 0)

unfoldable pub is_some {ℓ} : {A : Type ℓ} → Option A → Bool
is_some none = false
is_some (some a) = true

unfoldable pub status_body : Bytes → Bool → Bool → Bytes
status_body handle known running =
    handle ++ 0 ∷ (flag known ++ 0 ∷ (flag running ++ 0 ∷ (show 0 ++ 0 ∷ show 0)))

module _ {F : Type 0} ⦃w : WrappingSet F⦄ where
  unfoldable pub handle_can_do : GearmanService → Packet → M F Packet
  handle_can_do svc packet = with_worker svc.worker λ worker. do
    modify (put_worker svc.worker (can_do packet.body worker))
    with_workers λ workers st.
        let (worker', workers') = wakeup (can_do packet.body worker) svc.conn_id workers in
        (ok tt, put_workers workers' (put_worker svc.worker worker' st))
    pure no_response

  unfoldable pub handle_cant_do : GearmanService → Packet → M F Packet
  handle_cant_do svc packet =
      with_worker svc.worker
        λ worker. do modify (put_worker svc.worker (cant_do packet.body worker)); pure no_response

  unfoldable pub handle_pre_sleep : GearmanService → M F Packet
  handle_pre_sleep svc = with_worker svc.worker λ worker. with_workers λ workers st.
      let (worker', workers') = sleep worker svc.conn_id workers in
      (ok no_response, put_workers workers' (put_worker svc.worker worker' st))

  -- `queues.get_job(worker)`, the lock of the storage held for the call.
  unfoldable pub take_job : GearmanService → Worker F → M F (Option Arc)
  take_job svc worker = with_queues λ s st.
      let (job, worker', s') = get_job (held_by st.cells) worker s in
      (ok job, put_queues s' (put_worker svc.worker worker' st))

  unfoldable pub handle_grab : GearmanService → ℕ → (Job → Bytes) → M F Packet
  unfolding take_job
  handle_grab svc ptype body =
      with_worker svc.worker
        λ worker. do job ← take_job svc worker; pure (job_answer ptype body job)

  unfoldable pub handle_grab_job : GearmanService → M F Packet
  unfolding handle_grab
  handle_grab_job svc = handle_grab svc Constants.job_assign assign_body

  unfoldable pub handle_grab_job_uniq : GearmanService → M F Packet
  unfolding handle_grab
  handle_grab_job_uniq svc = handle_grab svc Constants.job_assign_uniq assign_uniq_body

  unfoldable pub handle_grab_job_all : GearmanService → M F Packet
  unfolding handle_grab
  handle_grab_job_all svc = handle_grab svc Constants.job_assign_all assign_all_body

module _ {F : Type 0} where
  -- The job leaves the storage, if this worker has it.
  unfoldable pub forget_job : Option Arc → M F (Unit {0})
  forget_job none = pure tt
  forget_job (some a) = with_queues λ s. modify (put_queues (remove_job a.job.unique s))

  -- The waiters of a handle are taken out, and the packet goes to each of them.
  unfoldable pub tell_waiters : Bytes → Packet → M F (Unit {0})
  tell_waiters handle packet = with_waiters λ waiters. elim (Assoc.get handle waiters) [
    | none ↦ pure tt
    | some conns ↦ do modify (put_waiters (Assoc.remove handle waiters)); send_all conns packet
  ]

  -- The lock of the worker is held to the end.
  unfoldable pub handle_work_complete : GearmanService → Packet → M F Packet
  unfolding forget_job tell_waiters
  handle_work_complete svc packet =
      let handle : Bytes = (next_field packet.body).0 in
      with_worker svc.worker λ worker. do
        forget_job (get_assigned_job handle worker)
        modify (put_worker svc.worker (unassign_job handle worker))
        tell_waiters handle packet
        pure no_response

  unfoldable pub handle_work_update : GearmanService → Packet → M F Packet
  handle_work_update svc packet =
      let handle : Bytes = (next_field packet.body).0 in
      with_waiters λ waiters. elim (Assoc.get handle waiters) [
        | none ↦ pure no_response
        | some conns ↦ do send_all conns packet; pure no_response
      ]

  unfoldable pub handle_set_client_id : GearmanService → Packet → M F Packet
  handle_set_client_id svc packet = with_worker svc.worker λ worker. do
    modify (put_worker svc.worker (record worker { client_id = packet.body }))
    pure no_response

  unfoldable pub handle_get_status : GearmanService → Packet → M F Packet
  handle_get_status svc packet =
      let handle : Bytes = (next_field packet.body).0 in
      do
        known ← with_waiters λ waiters. pure (is_some (Assoc.get handle waiters))
        running ← with_worker svc.worker λ worker. pure (is_some (get_assigned_job handle worker))
        pure (new_res Constants.status_res (status_body handle known running))
