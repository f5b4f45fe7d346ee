-- ===== src/Client/Handlers.antt =====
-- rustygear/src/client.rs: `ClientHandler`, which takes the packets that the server sends.
use rustygear.Constants
use rustygear.Outcome.{ok, err, panic, invalid_packet_type}
use rustygear.Packet.{Packet, new_req, no_response, next_field, bytes2bool}
use rustygear.Prelude.{
  ℕ, ◌^◌, ◌||◌, none, some, [], ◌∷◌, ◌++◌, Bytes, bytes_eq, nat_eq, ◌==◌, if◌then◌else◌,
}
use rustygear.Prelude.Assoc
use rustygear.Text.Number.{parse_field}
use rustygear.Client.State.{
  JobStatus, WorkUpdate, work_data, warning, exception, fail, ClientHandler, C, pure, fails, ◌>>=◌,
  ◌>>◌, modify,
}

abbrev pub u32_bound : ℕ
u32_bound = 2 ^ 32

abbrev pub usize_bound : ℕ
usize_bound = 2 ^ 64

-- `String::from_utf8(...).unwrap().parse().unwrap()`
unfoldable pub parse_or_panic : ℕ → Bytes → C ℕ
parse_or_panic bound bs = elim (parse_field bound bs) [ none ↦ fails panic | some n ↦ pure n ]

unfoldable pub handle_noop : C Packet
handle_noop = pure (new_req Constants.grab_job [])

unfoldable pub handle_no_job : C Packet
handle_no_job = pure (new_req Constants.pre_sleep [])

unfoldable pub handle_echo_res : Packet → C Packet
handle_echo_res packet = do
  modify λ st. record st { echo = st.echo ++ packet.body ∷ [] }
  pure no_response

unfoldable pub handle_job_created : Packet → C Packet
handle_job_created packet = do
  modify λ st. record st { job_created = st.job_created ++ packet.body ∷ [] }
  pure no_response

unfoldable pub handle_error : Packet → C Packet
handle_error packet =
    let (code, rest) = next_field packet.body in
    let (message, rest') = next_field rest in
    do modify λ st. record st { error = st.error ++ (code, message) ∷ [] }; pure no_response

-- The number of waiting clients, which only STATUS_RES_UNIQUE has.
unfoldable pub waiting_field : ℕ → Bytes → C ℕ
unfolding parse_or_panic
waiting_field ptype fields =
    if ptype == Constants.status_res_unique
    then parse_or_panic u32_bound (next_field fields).0
    else pure 0

unfoldable pub handle_status_res : Packet → C Packet
unfolding parse_or_panic waiting_field
handle_status_res packet =
    let (handle, fields1) = next_field packet.body in
    let (known, fields2) = next_field fields1 in
    let (running, fields3) = next_field fields2 in
    let (numerator, fields4) = next_field fields3 in
    let (denominator, fields5) = next_field fields4 in
    do
      n ← parse_or_panic u32_bound numerator
      d ← parse_or_panic u32_bound denominator
      w ← waiting_field packet.ptype fields5
      let js : JobStatus = record {
        handle = handle;
        known = bytes2bool known;
        running = bytes2bool running;
        numerator = n;
        denominator = d;
        waiting = w;
      }
      modify λ st. record st { status_res = st.status_res ++ js ∷ [] }
      pure no_response

unfoldable pub handle_option_res : C Packet
handle_option_res = pure no_response

-- The update that a packet brings, from its type, its handle, its payload and what is behind it.
unfoldable pub work_update : ℕ → Bytes → Bytes → Bytes → C WorkUpdate
unfolding parse_or_panic
work_update ptype handle payload fields =
    if ptype == Constants.work_data
    then pure (work_data handle payload)
    else if ptype == Constants.work_complete
    then pure (WorkUpdate.complete handle payload)
    else if ptype == Constants.work_warning
    then pure (warning handle payload)
    else if ptype == Constants.work_exception
    then pure (exception handle payload)
    else if ptype == Constants.work_fail
    then pure (fail handle)
    else if ptype == Constants.work_status
    then (do
      numerator ← parse_or_panic usize_bound payload
      denominator ← parse_or_panic usize_bound (next_field fields).0
      pure (WorkUpdate.status handle numerator denominator))
    else fails panic

-- The update goes to the job of its handle, if there is one.
unfoldable pub deliver : Bytes → WorkUpdate → C (Unit {0})
deliver handle update st = elim (Assoc.get handle st.senders_by_handle) [
  | none ↦ (ok tt, st)
  | some tx ↦ (ok tt, record st { updates = st.updates ++ (tx, update) ∷ [] })
]

unfoldable pub handle_work_update : Packet → C Packet
unfolding work_update deliver
handle_work_update packet =
    let (handle, fields) = next_field packet.body in
    let (payload, rest) = next_field fields in
    do
      update ← work_update packet.ptype handle payload rest
      deliver handle update
      pure no_response

unfoldable pub handle_job_assign : ClientHandler → Packet → C Packet
handle_job_assign handler packet =
    let (handle, fields) = next_field packet.body in
    let (function, fields') = next_field fields in
    let (payload, rest) = next_field fields' in
    do
      modify λ st. record st {
        worker_job =
            st.worker_job
            ++ (record {
              handle = handle;
              function = function;
              payload = payload;
              sink_tx = handler.sink_tx;
            })
              ∷ [];
      }
      pure no_response

-- The arms of `call`, and the one that the type of a packet chooses.
pub data Reply : Type 0 where
  noop job_created no_job job_assign echo_res error status_res option_res update unimplemented :
      Reply

unfoldable pub reply : ℕ → Reply
reply t =
    if t == Constants.noop
    then noop
    else if t == Constants.job_created
    then job_created
    else if t == Constants.no_job
    then no_job
    else if t == Constants.job_assign
    then job_assign
    else if t == Constants.echo_res
    then echo_res
    else if t == Constants.error
    then error
    else if t == Constants.status_res || t == Constants.status_res_unique
    then status_res
    else if t == Constants.option_res
    then option_res
    else if t == Constants.work_complete
        || t == Constants.work_data
        || t == Constants.work_status
        || t == Constants.work_warning
        || t == Constants.work_fail
        || t == Constants.work_exception
    then update
    else unimplemented

-- The right-hand sides of the arms.
unfoldable pub respond : Reply → ClientHandler → Packet → C Packet
respond noop handler packet = handle_noop
respond job_created handler packet = handle_job_created packet
respond no_job handler packet = handle_no_job
respond job_assign handler packet = handle_job_assign handler packet
respond echo_res handler packet = handle_echo_res packet
respond error handler packet = handle_error packet
respond status_res handler packet = handle_status_res packet
respond option_res handler packet = handle_option_res
respond update handler packet = handle_work_update packet
respond unimplemented handler packet = fails (err (invalid_packet_type packet.ptype))

unfoldable pub call : ClientHandler → Packet → C Packet
unfolding respond reply
call handler packet = respond (reply packet.ptype) handler packet
