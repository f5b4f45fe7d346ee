-- ===== src/Client/Delivery.antt =====
-- The completion of a job and `submit` in rustygear/src/client.rs, in the two orders in which they
-- can come.
use rustygear.Client.Handlers.{call, handle_work_update, work_update, deliver}
use rustygear.Client.Progress.{work_complete-WorkUpdate}
use rustygear.Client.Requests.{register, response, submit_response, take_update}
use rustygear.Client.State.{Client, ClientHandler, ClientJob, WorkerJob, WorkUpdate, channel}
use rustygear.Client.Work.{work_complete_packet}
use rustygear.Outcome.{ok}
use rustygear.Packet.{new_res, no_response, next_field}
use rustygear.Packet.Fields.{HasNo, next_field-append}
use rustygear.Prelude.{
  ℕ, suc, ◌≡◌, refl, ◌∙◌, none, some, List, [], ◌∷◌, ◌++◌, arith, Bytes, bytes_eq, nat_eq,
  nat_beq_iff, bytes_beq_iff,
}
use rustygear.Prelude.Assoc
use rustygear.Prelude.Assoc.{get-insert}

-- The first update on a channel that had none.
take_update-snoc :
    (rx : ℕ) (u : WorkUpdate) (us : List (ℕ × WorkUpdate))
    → take_update rx us ≡ none
    → take_update rx (us ++ (rx, u) ∷ []) ≡ some (u, us)
unfolding take_update
take_update-snoc rx u [] e = ground (arith, nat_beq_iff rx rx)
take_update-snoc rx u ((tx, v) ∷ us) e = ground (arith, take_update-snoc rx u us)

deliver-none :
    (h : Bytes) (u : WorkUpdate) (st : Client)
    → Assoc.get h st.senders_by_handle ≡ none
    → deliver h u st ≡ (ok tt, st)
unfolding deliver
deliver-none h u st e = rw (e, deliver) refl

-- The client once it knows the channel of the job.
abbrev pub known : Bytes → List Bytes → Client → Client
known handle rest st = record st {
  job_created = rest;
  next_channel = suc st.next_channel;
  senders_by_handle = Assoc.insert handle st.next_channel st.senders_by_handle;
}

submit_response-known :
    (handle : Bytes) (rest : List Bytes) (st : Client)
    → st.job_created ≡ handle ∷ rest
    → submit_response st
      ≡ some (ok (record { handle = handle; response_rx = st.next_channel }), known handle rest st)
unfolding submit_response register channel
submit_response-known handle rest st e = rw (e, submit_response) refl

-- For a JOB_CREATED that waits to be taken, its handle without nulls and not known yet, and a
-- channel number without updates: if `submit` takes it before the WORK_COMPLETE of the job is read,
-- `response` returns the completion; if the WORK_COMPLETE is read before, nothing is kept of it,
-- and after `submit` there is nothing for `response` to return.
pub submit_response-response :
    (worker_job : WorkerJob) (result : Bytes) (reader : ClientHandler) (rest : List Bytes)
    (st : Client)
    → HasNo 0 worker_job.handle
    → st.job_created ≡ worker_job.handle ∷ rest
    → Assoc.get worker_job.handle st.senders_by_handle ≡ none
    → take_update st.next_channel st.updates ≡ none
    → let q = work_complete_packet worker_job result in
      let job : ClientJob = record { handle = worker_job.handle; response_rx = st.next_channel } in
      let up = known worker_job.handle rest st in
      (submit_response st ≡ some (ok job, up))
      × (response job (call reader q up).1
          ≡ some (WorkUpdate.complete worker_job.handle (next_field result).0, up))
      × (call reader q st ≡ (ok no_response, st))
      × (response job up ≡ none)
unfolding response work_complete_packet new_res call handle_work_update work_update
submit_response-response worker_job result reader rest st hh created fresh silent =
    let h = worker_job.handle in
    let tx = st.next_channel in
    let up = known h rest st in
    let u = WorkUpdate.complete h (next_field result).0 in
    let found : Assoc.get h up.senders_by_handle ≡ some tx =
      get-insert h h tx st.senders_by_handle ∙ rw ((bytes_beq_iff h h).1 refl) refl in
    (
      submit_response-known h rest st created,
      rw (work_complete-WorkUpdate worker_job result reader up tx hh found)
          (rw (take_update-snoc tx u st.updates silent, response) refl),
      rw (next_field-append h result hh) (rw (deliver-none h u st fresh) refl),
      rw (silent, response) refl,
    )
