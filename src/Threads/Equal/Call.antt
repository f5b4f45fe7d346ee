-- ===== src/Threads/Equal/Call.antt =====
-- `call` of rustygeard/src/service.rs with the reports of rustygeard/src/admin.rs, as a program run
-- alone.
use rustygear.Admin.{
  status_lines, admin_command_status, report_worker, worker_lines, admin_command_workers,
  status_line, queue_total, worker_line,
}
use rustygear.Constants
use rustygear.Outcome.{invalid_packet_type}
use rustygear.Packet.{Packet, new_text_res}
use rustygear.Prelude.{
  arith, ℕ, Bool, Option, none, some, [], ◌∷◌, ◌++◌, Bytes, bytes_eq, nat_eq, ◌==◌, codes,
}
use rustygear.Prelude.Assoc.{Map}
use rustygear.Queues.{JobQueues}
use rustygear.Service.{Arm, arm, response_from_packet, dispatch, call}
use rustygear.Service.Handlers.{
  assign_body, assign_uniq_body, assign_all_body, handle_grab_job, handle_grab_job_uniq,
  handle_grab_job_all,
}
use rustygear.Service.State
use rustygear.Service.State.{M, Server, GearmanService, panics, modify, put_worker, with_worker}
use rustygear.Text.{from_utf8}
use rustygear.Threads.Does.{Does, err-Does, if-Does, pure-Does, bind-Does}
use rustygear.Threads.Does.Scopes.{
  panics-Does, put_worker-Does, queues-Does, workers-Does, conns-Does, worker-Does,
}
use rustygear.Threads.Call.{
  status_lines_steps, admin_status_steps, report_worker_steps, worker_lines_steps,
  admin_workers_steps, response_steps, dispatch_steps, call_steps,
}
use rustygear.Threads.Program.{pure, atomic, ◌>>◌}
use rustygear.Worker.{WrappingSet, Worker, iter, count_workers}
use rustygear.Threads.Equal.Handlers.{
  can_do-Does, cant_do-Does, pre_sleep-Does, grab-Does, complete-Does, update-Does, client_id-Does,
  get_status-Does,
}
use rustygear.Threads.Equal.Submit.{submit-Does}

module _ {F : Type 0} where
  status_lines-Does : (m : JobQueues) → Does {F = F} 3 none (status_lines m) (status_lines_steps m)
  unfolding status_lines status_lines_steps
  status_lines-Does [] = pure-Does (codes ".\n")
  status_lines-Does ((func, qs) ∷ m) =
      bind-Does _ _ _ _
        (workers-Does _ _ (omega arith) (λ workers. pure-Does (count_workers func workers)))
        (λ counts.
          bind-Does _ _ _ _ (status_lines-Does m)
            (λ rest. pure-Does (status_line func (queue_total qs) counts ++ rest)))

  admin_status-Does : Does {F = F} 0 none admin_command_status admin_status_steps
  unfolding admin_command_status admin_status_steps
  admin_status-Does =
      queues-Does _ _ (omega arith)
        (λ s. bind-Does _ _ _ _ (status_lines-Does s.queues) (λ r. pure-Does (new_text_res r)))

module _ {F : Type 0} ⦃w : WrappingSet F⦄ where
  report_found :
      (conn_id k : ℕ) (worker : Worker F) (o : Option Bytes)
      → Does {F = F} {A = Bytes} 2 none
          (elim o [
            | none ↦ panics
            | some client_id ↦
                State.◌>>◌ (modify (put_worker k (iter worker).1)) (
                  State.pure
                    (worker_line conn_id worker.peer_addr worker.client_id (iter worker).0))
          ])
          (elim o [
            | none ↦ atomic panics
            | some client_id ↦ do
              atomic (modify (put_worker k (iter worker).1))
              pure (worker_line conn_id worker.peer_addr worker.client_id (iter worker).0)
          ])
  report_found conn_id k worker none = panics-Does
  report_found conn_id k worker (some client_id) =
      let line : Bytes = worker_line conn_id worker.peer_addr worker.client_id (iter worker).0 in
      bind-Does (modify (put_worker k (iter worker).1)) _ (λ t. State.pure line) _
        (put_worker-Does k (iter worker).1) (λ t. pure-Does line)

  report_worker-Does :
      (conn_id k : ℕ)
      → Does {F = F} 1 none (report_worker conn_id k) (report_worker_steps conn_id k)
  unfolding report_worker report_worker_steps
  report_worker-Does conn_id k =
      worker-Does _ _ _ (omega arith)
        (λ worker. report_found conn_id k worker (from_utf8 worker.client_id))

  worker_lines-Does : (m : Map ℕ ℕ) → Does {F = F} 1 none (worker_lines m) (worker_lines_steps m)
  unfolding worker_lines worker_lines_steps
  worker_lines-Does [] = pure-Does (codes ".\n")
  worker_lines-Does ((conn_id, k) ∷ m) =
      bind-Does _ _ _ _ (report_worker-Does conn_id k)
        (λ line. bind-Does _ _ _ _ (worker_lines-Does m) (λ rest. pure-Does (line ++ rest)))

  admin_workers-Does : Does {F = F} 0 none admin_command_workers admin_workers_steps
  unfolding admin_command_workers admin_workers_steps
  admin_workers-Does =
      conns-Does _ _ (omega arith)
        (λ m. bind-Does _ _ _ _ (worker_lines-Does m) (λ r. pure-Does (new_text_res r)))

  response-Does : (p : Packet) → Does {F = F} 0 none (response_from_packet p) (response_steps p)
  unfolding response_from_packet response_steps
  response-Does p = if-Does (p.ptype == Constants.admin_version) _ _ _ _ (pure-Does _) (
      if-Does (p.ptype == Constants.admin_status) _ _ _ _ admin_status-Does
        (if-Does (p.ptype == Constants.admin_workers) _ _ _ _ admin_workers-Does (panics-Does)))

  dispatch-Does :
      (a : Arm) (svc : GearmanService) (p : Packet)
      → Does {F = F} 0 none (dispatch a svc p) (dispatch_steps a svc p)
  unfolding dispatch dispatch_steps handle_grab_job handle_grab_job_uniq handle_grab_job_all
  dispatch-Does Arm.report svc p = response-Does p
  dispatch-Does (Arm.submit i wait) svc p = submit-Does svc i wait p
  dispatch-Does Arm.status svc p = get_status-Does svc p
  dispatch-Does Arm.pre_sleep svc p = pre_sleep-Does svc
  dispatch-Does Arm.can_do svc p = can_do-Does svc p
  dispatch-Does Arm.cant_do svc p = cant_do-Does svc p
  dispatch-Does Arm.grab svc p = grab-Does svc Constants.job_assign assign_body
  dispatch-Does Arm.grab_uniq svc p = grab-Does svc Constants.job_assign_uniq assign_uniq_body
  dispatch-Does Arm.grab_all svc p = grab-Does svc Constants.job_assign_all assign_all_body
  dispatch-Does Arm.complete svc p = complete-Does svc p
  dispatch-Does Arm.update svc p = update-Does svc p
  dispatch-Does Arm.client_id svc p = client_id-Does svc p
  dispatch-Does Arm.echo svc p = pure-Does _
  dispatch-Does Arm.unimplemented svc p = err-Does (invalid_packet_type p.ptype)

  pub call-Does :
      (debug : Bool) (svc : GearmanService) (p : Packet)
      → Does {F = F} 0 none (call debug svc p) (call_steps debug svc p)
  unfolding call call_steps
  call-Does debug svc p =
      bind-Does _ _ _ _
        (if-Does debug _ _ _ _
          (worker-Does svc.worker (λ worker. State.pure tt) _ (omega arith)
            (λ worker. pure-Does tt))
          (pure-Does tt))
        (λ t. dispatch-Does (arm p.ptype) svc p)
