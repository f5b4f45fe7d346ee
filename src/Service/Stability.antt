-- ===== src/Service/Stability.antt =====
-- Every request keeps what the writes of the handlers and a poisoning keep, however it ends.
pub mod Handlers
pub mod Submit
use rustygear.Outcome.{err}
use rustygear.Packet.{Packet}
use rustygear.Prelude.{nat_eq, ◌==◌, ℕ, Bool, true, false, if◌then◌else◌}
use rustygear.Constants
use rustygear.Service.{
  Arm, arm, report, submit, status, pre_sleep, can_do, cant_do, grab, grab_uniq, grab_all, complete,
  update, client_id, echo, unimplemented, call, dispatch, response_from_packet,
}
use rustygear.Service.Handlers.{handle_grab_job, handle_grab_job_uniq, handle_grab_job_all}
use rustygear.Service.Keeps.{
  Stable, Keeps, Keeps-pure, Keeps-panics, Keeps-bind, Keeps-if, Keeps-with_worker,
}
use rustygear.Service.Secure.{Secure}
use rustygear.Service.State.{Server, GearmanService}
use rustygear.Worker.{WrappingSet}
use Handlers.{
  Keeps-complete, Keeps-update, Keeps-set_client_id, Keeps-get_status, Keeps-admin_status,
  Keeps-can_do, Keeps-cant_do, Keeps-pre_sleep, Keeps-grab, Keeps-admin_workers,
}
use Submit.{Keeps-submit}

module _ {F : Type 0} ⦃w : WrappingSet F⦄ {P : Server F → Type 0} (v : Secure P) where
  Keeps-response : (p : Packet) → Keeps P (response_from_packet p)
  unfolding response_from_packet
  Keeps-response p = Keeps-if (p.ptype == Constants.admin_version) _ _ (Keeps-pure _) (
      Keeps-if (p.ptype == Constants.admin_status) _ _ (Keeps-admin_status v)
        (Keeps-if (p.ptype == Constants.admin_workers) _ _ (Keeps-admin_workers v) Keeps-panics))

  Keeps-dispatch : (a : Arm) (svc : GearmanService) (p : Packet) → Keeps P (dispatch a svc p)
  unfolding dispatch handle_grab_job handle_grab_job_uniq handle_grab_job_all
  Keeps-dispatch report svc p = Keeps-response p
  Keeps-dispatch (submit priority wait) svc p = Keeps-submit v svc priority wait p
  Keeps-dispatch status svc p = Keeps-get_status v svc p
  Keeps-dispatch pre_sleep svc p = Keeps-pre_sleep v svc
  Keeps-dispatch can_do svc p = Keeps-can_do v svc p
  Keeps-dispatch cant_do svc p = Keeps-cant_do v svc p
  Keeps-dispatch grab svc p = Keeps-grab v svc _ _
  Keeps-dispatch grab_uniq svc p = Keeps-grab v svc _ _
  Keeps-dispatch grab_all svc p = Keeps-grab v svc _ _
  Keeps-dispatch complete svc p = Keeps-complete v svc p
  Keeps-dispatch update svc p = Keeps-update v svc p
  Keeps-dispatch client_id svc p = Keeps-set_client_id v svc p
  Keeps-dispatch echo svc p = Keeps-pure _
  Keeps-dispatch unimplemented svc p = record { kept = λ st h. h }

  pub Keeps-call : (debug : Bool) (svc : GearmanService) (p : Packet) → Keeps P (call debug svc p)
  unfolding call
  Keeps-call debug svc p =
      Keeps-bind _ _
        (Keeps-if debug _ _ (Keeps-with_worker v.stable svc.worker _ λ k. Keeps-pure tt)
          (Keeps-pure tt))
        λ _. Keeps-dispatch (arm p.ptype) svc p
