-- ===== src/Client/Jobs.antt =====
-- A job on its way from rustygeard/src/service.rs to a worker of rustygear/src/client.rs, and there
-- to the closure of its function.
use rustygear.Constants
use rustygear.Client.Handlers.{call, handle_job_assign}
use rustygear.Client.Ready.{Ready, with_handler-open, with_conns-open, send_packet-Ready}
use rustygear.Client.Work.{can_do, offer, offer_all, or_insert, assign, work_turn}
use rustygear.Mutex.{unlocked}
use rustygear.Prelude.Assoc
use rustygear.Prelude.Assoc.{get-insert}
use rustygear.Prelude.Finite
use rustygear.Client.State.{channel, WorkerJob, ClientHandler, Client}
use rustygear.Job.{Arc}
use rustygear.Outcome.{ok}
use rustygear.Packet.{new_req, new_res, no_response, next_field}
use rustygear.Packet.Fields.{HasNo, next_field-append}
use rustygear.Prelude.{
  bytes_beq_iff, false, suc, none, List, ℕ, Bytes, ◌≡◌, refl, some, ◌∷◌, ◌++◌, [], nat_eq, bytes_eq,
}
use rustygear.Service.Handlers.{assign_body, job_answer}

-- A client reads the JOB_ASSIGN for a job whose handle and function have no null into a `WorkerJob`
-- with that handle and function, but of the payload it keeps only what stands before the first
-- null.
pub job_assign-WorkerJob :
    (a : Arc) (reader : ClientHandler) (st : Client)
    → HasNo 0 a.job.handle
    → HasNo 0 a.job.fname
    → let job : WorkerJob = record {
      handle = a.job.handle;
      function = a.job.fname;
      payload = (next_field a.job.payload).0;
      sink_tx = reader.sink_tx;
    } in
      call reader (job_answer Constants.job_assign assign_body (some a)) st
      ≡ (ok no_response, record st { worker_job = st.worker_job ++ job ∷ [] })
unfolding call job_answer assign_body new_res handle_job_assign
job_assign-WorkerJob a reader st hh hf =
    rw (next_field-append a.job.handle (a.job.fname ++ 0 ∷ a.job.payload) hh)
      (rw (next_field-append a.job.fname a.job.payload hf) refl)

-- A function that is not registered yet, on one connection.
abbrev offered : Bytes → ℕ → ℕ → Client → Client
offered function task tx st = record st {
  jobs_tx_by_func = Assoc.insert function task st.jobs_tx_by_func;
  sinks = st.sinks ++ (tx, new_req Constants.can_do function) ∷ [];
}

offer-Ready :
    (function : Bytes) (task conn tx : ℕ) (st : Client)
    → Ready conn tx st
    → Assoc.get function st.jobs_tx_by_func ≡ none
    → offer function task conn st ≡ (ok tt, offered function task tx st)
unfolding offer or_insert
offer-Ready function task conn tx st r fresh =
    let told = record st { jobs_tx_by_func = Assoc.insert function task st.jobs_tx_by_func } in
    let ready : Ready conn tx told = record {
      others = r.others;
      client_id = r.client_id;
      conns = r.conns;
      handler = r.handler;
      opened = r.opened;
    } in
    rw (with_handler-open conn _ st _ r.handler) (
      rw (fresh, or_insert)
        (send_packet-Ready conn tx (new_req Constants.can_do function) told ready))

can_do-Ready :
    (function : Bytes) (conn tx : ℕ) (st : Client)
    → Ready conn tx st
    → st.conns ≡ unlocked (conn ∷ [])
    → Assoc.get function st.jobs_tx_by_func ≡ none
    → can_do function st ≡ (
      ok st.next_channel,
      offered function st.next_channel tx (record st { next_channel = suc st.next_channel }),
    )
unfolding can_do channel offer_all
can_do-Ready function conn tx st r alone fresh =
    let next = record st { next_channel = suc st.next_channel } in
    let ready : Ready conn tx next = record {
      others = r.others;
      client_id = r.client_id;
      conns = r.conns;
      handler = r.handler;
      opened = r.opened;
    } in
    rw (with_conns-open (offer_all function st.next_channel) next (conn ∷ []) alone)
      (rw (offer-Ready function st.next_channel conn tx next ready fresh) refl)

-- A worker with one connection that registers a function not registered before sends one CAN_DO for
-- it, and the next round of `work` takes the oldest job, if it is of that function, out of the
-- queue and gives it to the task of the function.
pub can_do-work_turn :
    (conn tx : ℕ) (job : WorkerJob) (rest : List WorkerJob) (st : Client)
    → Ready conn tx st
    → st.conns ≡ unlocked (conn ∷ [])
    → Assoc.get job.function st.jobs_tx_by_func ≡ none
    → Finite.contains st.next_channel st.closed ≡ false
    → st.worker_job ≡ job ∷ rest
    → let (task, offered) = can_do job.function st in
      (task ≡ ok st.next_channel)
      × (offered.sinks ≡ st.sinks ++ (tx, new_req Constants.can_do job.function) ∷ [])
      × (work_turn offered ≡ (
        ok tt,
        record offered { worker_job = rest; assigned = st.assigned ++ (st.next_channel, job) ∷ [] },
      ))
unfolding work_turn assign
can_do-work_turn conn tx job rest st r alone fresh opened queued =
    rw (can_do-Ready job.function conn tx st r alone fresh) (
      refl,
      refl,
      rw (queued, work_turn)
          (rw
            (
              get-insert job.function job.function st.next_channel st.jobs_tx_by_func,
              (bytes_beq_iff job.function job.function).1 refl,
              assign,
            )
            (rw (opened, assign) refl)),
    )
