-- ===== src/Client/Journey.antt =====
-- A job from the client of rustygear/src/client.rs that submits it, through the handlers of
-- rustygeard/src/service.rs, to the client that works on it, and the result on its way back.
use rustygear.Constants
use rustygear.Client.Delivery.{known, submit_response-response}
use rustygear.Client.Handlers.{call, handle_job_created}
use rustygear.Client.Jobs.{job_assign-WorkerJob}
use rustygear.Client.Ready.{Ready, sending}
use rustygear.Client.Requests.{response, submission_body, submit, submit_response, take_update}
use rustygear.Client.State.{Client, ClientHandler, ClientJob, WorkerJob, WorkUpdate}
use rustygear.Client.Submission.{direct_submit-job, three_parts}
use rustygear.Client.Work.{work_complete_packet}
use rustygear.Job
use rustygear.Job.{Arc}
use rustygear.Outcome.{Outcome, ok}
use rustygear.Packet.{Packet, new_req, new_res, no_response, next_field}
use rustygear.Packet.Fields.{HasNo, next_field-append}
use rustygear.Prelude.{
  ℕ, ◌≡◌, refl, ap, ◌∙◌, true, false, none, some, List, [], ◌∷◌, ◌++◌, arith, Bytes, bytes_eq,
  nat_eq,
}
use rustygear.Prelude.Assoc
use rustygear.Queues.{empty_queues, func_queues}
use rustygear.Service.Answers.{handle_of-HasNo}
use rustygear.Service.Created.{Healthy}
use rustygear.Service.Handlers.{assign_body, job_answer, handle_grab_job, handle_work_complete}
use rustygear.Service.Journey.{handle_work_complete-handle_submit_job}
use rustygear.Service.State.{Server, GearmanService}
use rustygear.Service.Submit.{handle_of, handle_submit_job, job_created}
use rustygear.Worker.{WrappingSet, Worker}

-- The client once the answer to its submission was read.
job_created-read :
    (reader : ClientHandler) (handle : Bytes) (st : Client)
    → st.job_created ≡ []
    → call reader (job_created handle) st
      ≡ (ok no_response, record st { job_created = handle ∷ [] })
unfolding call job_created handle_job_created
job_created-read reader handle st e =
    ap
      (λ (l : List Bytes).
        let r : Outcome Packet × Client =
          (ok no_response, record st { job_created = l ++ handle ∷ [] }) in
        r)
      e

module _ {F : Type 0} ⦃w : WrappingSet F⦄ (client maker : GearmanService) (conn_id ctx : ℕ)
    (function unique payload result : Bytes) (cl wk : Client) (asker doer : ClientHandler)
    (st : Server F) (worker : Worker F) (tx : ℕ) where
  abbrev submission : Packet
  submission = new_req Constants.submit_job (submission_body function unique payload)

  abbrev handle : Bytes
  handle = handle_of st.job_count

  abbrev job : WorkerJob
  job = record {
    handle = handle;
    function = function;
    payload = (next_field payload).0;
    sink_tx = doer.sink_tx;
  }

  abbrev completion : Packet
  completion = work_complete_packet job result

  abbrev told : Client
  told = record (sending ctx submission cl) { job_created = handle ∷ [] }

  abbrev pending : ClientJob
  pending = record { handle = handle; response_rx = cl.next_channel }

  -- A job from one client library to another and back, through the handlers of the server, the
  -- steps one after the other: a ready client (no JOB_CREATED to take, no sender for the new
  -- handle, no update on the next channel) submits a function and a unique id without nulls; the
  -- server, no mutex that a submission takes poisoned nor that of the worker, the unique id and the
  -- waiters of the handle new, the function without queued jobs and the only one of the worker, the
  -- client connected, answers with the handle, which `submit` takes and registers; the worker that
  -- grabs is assigned a job that its library reads with the same handle and function and the
  -- payload up to its first null; its WORK_COMPLETE adds one send, to the client, where `response`
  -- returns the completion with the result up to its first null.
  pub response-submit :
      Ready conn_id ctx cl
      → HasNo 0 function
      → HasNo 0 unique
      → cl.job_created ≡ []
      → Assoc.get handle cl.senders_by_handle ≡ none
      → take_update cl.next_channel cl.updates ≡ none
      → Healthy st
      → Assoc.get unique st.queues.value.jobs ≡ none
      → func_queues function st.queues.value.queues ≡ empty_queues
      → Assoc.get maker.worker st.cells ≡ some (record { value = worker; poisoned = false })
      → (w.iter worker.functions).0 ≡ function ∷ []
      → Assoc.get client.conn_id st.senders.value ≡ some tx
      → Assoc.get handle st.job_waiters.value ≡ none
      → let (answer, st1) = handle_submit_job client 1 true submission st in
        let (assigned, st2) = handle_grab_job maker st1 in
        let (reported, st3) = handle_work_complete maker completion st2 in
        (submit function unique payload cl ≡ (ok tt, sending ctx submission cl))
        × (answer ≡ ok (job_created handle))
        × (call asker (job_created handle) (sending ctx submission cl) ≡ (ok no_response, told))
        × (submit_response told ≡ some (ok pending, known handle [] told))
        × ((packet : Packet) × (assigned ≡ ok packet)
            × (call doer packet wk
                ≡ (ok no_response, record wk { worker_job = wk.worker_job ++ job ∷ [] })))
        × (st3.sent ≡ st1.sent ++ (tx, completion) ∷ [])
        × (response pending (call asker completion (known handle [] told)).1
            ≡ some (WorkUpdate.complete handle (next_field result).0, known handle [] told))
  unfolding submit work_complete_packet new_res job_answer Job.new
  response-submit r hf hu idle unknown silent good new empty here only linked fresh =
      let hh = handle_of-HasNo st.job_count in
      let (f, u, d) = three_parts Constants.submit_job function unique payload hf hu in
      let (sent, made) =
        direct_submit-job Constants.submit_job conn_id ctx function unique payload cl st r hf hu in
      let (answered, assigned, reported, delivered, gone, forgotten) =
        handle_work_complete-handle_submit_job client maker 1 submission completion st worker tx
          good (omega arith) (rw u new) (rw f empty) here (rw f only) linked fresh
          (ap (λ (x : Bytes × Bytes). x.0) (next_field-append handle result hh)) in
      let (taken, got, early, nothing) =
        submit_response-response job result asker [] told hh refl unknown silent in
      let a : Arc = record {
        alloc = st.next_alloc;
        job = Job.new function unique payload handle;
      } in
      (
        sent,
        answered,
        job_created-read asker handle (sending ctx submission cl) idle,
        taken,
        (
          new_res Constants.job_assign (assign_body a.job),
          assigned ∙ ap (λ (x : Arc). ok (new_res Constants.job_assign (assign_body x.job))) made,
          job_assign-WorkerJob a doer wk hh hf,
        ),
        delivered,
        got,
      )
