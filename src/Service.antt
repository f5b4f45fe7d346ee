-- ===== src/Service.antt =====
-- rustygeard/src/service.rs: the handlers of the requests of one connection, and `call`, which
-- chooses among them.
pub mod Answers
pub mod Completed
pub mod Created
pub mod Waiters
pub mod Begun
pub mod Known
pub mod Ended
pub mod Handlers
pub mod Handles
pub mod Journey
pub mod Keeps
pub mod Lifecycle
pub mod Locks
pub mod Missing
pub mod Numbered
pub mod Poison
pub mod Race
pub mod Secure
pub mod Stability
pub mod State
pub mod Submit
pub mod Wake
use rustygear.Admin.{admin_command_status, admin_command_workers}
use rustygear.Constants
use rustygear.Outcome.{Outcome, ok, err, panic, invalid_packet_type}
use rustygear.Packet.{Packet, text, as_u32, new_res}
use rustygear.Prelude.{
  false, true, ℕ, Bool, ◌||◌, nat_eq, ◌==◌, Bytes, codes, length, if◌then◌else◌,
}
use rustygear.Worker.{WrappingSet}
use Handlers.{
  handle_can_do, handle_cant_do, handle_pre_sleep, handle_grab_job, handle_grab_job_uniq,
  handle_grab_job_all, handle_work_complete, handle_work_update, handle_set_client_id,
  handle_get_status,
}
use State.{Server, GearmanService, M, pure, panics, ◌>>=◌, ◌>>◌, with_worker}
use Submit.{handle_submit_job}

abbrev pub version_text : Bytes
version_text = codes "OK some-rustygear-version\n"

-- The arms of `call`, and the one that the type of a packet chooses.
pub data Arm : Type 0 where
  report status pre_sleep can_do cant_do grab grab_uniq grab_all complete update client_id echo
        unimplemented :
      Arm
  submit : ℕ → Bool → Arm

unfoldable pub arm : ℕ → Arm
arm t =
    if t == Constants.admin_version || t == Constants.admin_status || t == Constants.admin_workers
    then report
    else if t == Constants.submit_job
    then submit Constants.priority_normal true
    else if t == Constants.submit_job_high
    then submit Constants.priority_high true
    else if t == Constants.submit_job_low
    then submit Constants.priority_low true
    else if t == Constants.submit_job_bg
    then submit Constants.priority_normal false
    else if t == Constants.submit_job_high_bg
    then submit Constants.priority_high false
    else if t == Constants.submit_job_low_bg
    then submit Constants.priority_low false
    else if t == Constants.get_status
    then status
    else if t == Constants.pre_sleep
    then pre_sleep
    else if t == Constants.can_do
    then can_do
    else if t == Constants.cant_do
    then cant_do
    else if t == Constants.grab_job
    then grab
    else if t == Constants.grab_job_uniq
    then grab_uniq
    else if t == Constants.grab_job_all
    then grab_all
    else if t == Constants.work_complete
    then complete
    else if t == Constants.work_status || t == Constants.work_data || t == Constants.work_warning
    then update
    else if t == Constants.set_client_id
    then client_id
    else if t == Constants.echo_req
    then echo
    else unimplemented

module _ {F : Type 0} ⦃w : WrappingSet F⦄ where
  unfoldable pub response_from_packet : Packet → M F Packet
  response_from_packet packet =
      if packet.ptype == Constants.admin_version
      then pure (record {
        magic = text;
        ptype = packet.ptype;
        psize = as_u32 (length version_text);
        body = version_text;
      })
      else if packet.ptype == Constants.admin_status
      then admin_command_status
      else if packet.ptype == Constants.admin_workers
      then admin_command_workers
      else panics

  -- The right-hand sides of the arms of `call`.
  unfoldable pub dispatch : Arm → GearmanService → Packet → M F Packet
  unfolding response_from_packet
  dispatch report svc packet = response_from_packet packet
  dispatch (submit priority wait) svc packet = handle_submit_job svc priority wait packet
  dispatch status svc packet = handle_get_status svc packet
  dispatch pre_sleep svc packet = handle_pre_sleep svc
  dispatch can_do svc packet = handle_can_do svc packet
  dispatch cant_do svc packet = handle_cant_do svc packet
  dispatch grab svc packet = handle_grab_job svc
  dispatch grab_uniq svc packet = handle_grab_job_uniq svc
  dispatch grab_all svc packet = handle_grab_job_all svc
  dispatch complete svc packet = handle_work_complete svc packet
  dispatch update svc packet = handle_work_update svc packet
  dispatch client_id svc packet = handle_set_client_id svc packet
  dispatch echo svc packet = pure (new_res Constants.echo_res packet.body)
  dispatch unimplemented svc packet = λ st. (err (invalid_packet_type packet.ptype), st)

  -- With debug logging on, the client id is read for the log first.
  unfoldable pub call : Bool → GearmanService → Packet → M F Packet
  unfolding dispatch arm
  call debug svc packet = do
    if debug then with_worker svc.worker (λ worker. pure tt) else pure tt
    dispatch (arm packet.ptype) svc packet
