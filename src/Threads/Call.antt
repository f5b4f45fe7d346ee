-- ===== src/Threads/Call.antt =====
-- rustygeard/src/admin.rs, `call` of rustygeard/src/service.rs and the rounds of
-- rustygeard/src/server.rs, as programs that lock.
use rustygear.Admin.{queue_total, status_line, worker_line}
use rustygear.Constants
use rustygear.Outcome.{err, invalid_packet_type}
use rustygear.Packet.{Packet, text, as_u32, new_res, new_text_res}
use rustygear.Prelude.{
  ℕ, Bool, none, some, [], ◌∷◌, ◌++◌, Bytes, bytes_eq, nat_eq, ◌==◌, codes, length, if◌then◌else◌,
}
use rustygear.Prelude.Assoc.{Map}
use rustygear.Queues.{JobQueues}
use rustygear.Service.{Arm, arm, version_text}
use rustygear.Service.Handlers.{assign_body, assign_uniq_body, assign_all_body}
use rustygear.Service.State.{GearmanService, panics, modify, put_worker}
use rustygear.Text.{from_utf8}
use rustygear.Worker.{WrappingSet, count_workers, iter}
use rustygear.Threads.Program.{
  Prog, done, pure, atomic, ◌>>=◌, ◌>>◌, queues_scope, workers_scope, conns_scope, worker_scope,
}
use rustygear.Threads.Submit.{submit_steps}
use rustygear.Threads.Handlers.{
  can_do_steps, cant_do_steps, pre_sleep_steps, grab_steps, complete_steps, update_steps,
  client_id_steps, get_status_steps,
}

module _ {F : Type 0} where
  unfoldable pub status_lines_steps : JobQueues → Prog F Bytes
  unfolding queue_total status_line
  status_lines_steps [] = pure (codes ".\n")
  status_lines_steps ((func, qs) ∷ m) = do
    counts ← workers_scope λ workers. pure (count_workers func workers)
    rest ← status_lines_steps m
    pure (status_line func (queue_total qs) counts ++ rest)

  -- The storage is locked to the end, the workers for each line.
  unfoldable pub admin_status_steps : Prog F Packet
  unfolding status_lines_steps new_text_res
  admin_status_steps =
      queues_scope λ s. do response ← status_lines_steps s.queues; pure (new_text_res response)

module _ {F : Type 0} ⦃w : WrappingSet F⦄ where
  unfoldable pub report_worker_steps : ℕ → ℕ → Prog F Bytes
  unfolding worker_line
  report_worker_steps conn_id k = worker_scope k λ worker. elim (from_utf8 worker.client_id) [
    | none ↦ atomic panics
    | some client_id ↦
        let (fs, worker') = iter worker in
        do
          atomic (modify (put_worker k worker'))
          pure (worker_line conn_id worker.peer_addr worker.client_id fs)
  ]

  unfoldable pub worker_lines_steps : Map ℕ ℕ → Prog F Bytes
  unfolding report_worker_steps
  worker_lines_steps [] = pure (codes ".\n")
  worker_lines_steps ((conn_id, k) ∷ m) = do
    line ← report_worker_steps conn_id k
    rest ← worker_lines_steps m
    pure (line ++ rest)

  unfoldable pub admin_workers_steps : Prog F Packet
  unfolding worker_lines_steps new_text_res
  admin_workers_steps =
      conns_scope λ conns. do response ← worker_lines_steps conns; pure (new_text_res response)

  unfoldable pub response_steps : Packet → Prog F Packet
  response_steps packet =
      if packet.ptype == Constants.admin_version
      then pure (record {
        magic = text;
        ptype = packet.ptype;
        psize = as_u32 (length version_text);
        body = version_text;
      })
      else if packet.ptype == Constants.admin_status
      then admin_status_steps
      else if packet.ptype == Constants.admin_workers
      then admin_workers_steps
      else atomic panics

  unfoldable pub dispatch_steps : Arm → GearmanService → Packet → Prog F Packet
  unfolding response_steps
  dispatch_steps Arm.report svc packet = response_steps packet
  dispatch_steps (Arm.submit priority wait) svc packet = submit_steps svc priority wait packet
  dispatch_steps Arm.status svc packet = get_status_steps svc packet
  dispatch_steps Arm.pre_sleep svc packet = pre_sleep_steps svc
  dispatch_steps Arm.can_do svc packet = can_do_steps svc packet
  dispatch_steps Arm.cant_do svc packet = cant_do_steps svc packet
  dispatch_steps Arm.grab svc packet = grab_steps svc Constants.job_assign assign_body
  dispatch_steps Arm.grab_uniq svc packet =
      grab_steps svc Constants.job_assign_uniq assign_uniq_body
  dispatch_steps Arm.grab_all svc packet = grab_steps svc Constants.job_assign_all assign_all_body
  dispatch_steps Arm.complete svc packet = complete_steps svc packet
  dispatch_steps Arm.update svc packet = update_steps svc packet
  dispatch_steps Arm.client_id svc packet = client_id_steps svc packet
  dispatch_steps Arm.echo svc packet = pure (new_res Constants.echo_res packet.body)
  dispatch_steps Arm.unimplemented svc packet = done (err (invalid_packet_type packet.ptype))

  unfoldable pub call_steps : Bool → GearmanService → Packet → Prog F Packet
  unfolding dispatch_steps
  call_steps debug svc packet = do
    if debug then worker_scope svc.worker (λ worker. pure tt) else pure tt
    dispatch_steps (arm packet.ptype) svc packet
