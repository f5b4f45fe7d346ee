-- ===== src/Client/Progress.antt =====
-- What a worker of rustygear/src/client.rs reports on a job, through rustygeard/src/service.rs to
-- the clients that wait for it.
use rustygear.Constants
use rustygear.Client.Handlers.{call, handle_work_update, work_update, deliver, usize_bound}
use rustygear.Client.State.{WorkUpdate, WorkerJob, ClientHandler, Client}
use rustygear.Client.Status.{parse_or_panic-show}
use rustygear.Prelude.Finite
use rustygear.Server.{serve}
use rustygear.Client.Requests.{send}
use rustygear.Client.Work.{
  run_job, work_fail, send_for, work_status_packet, work_fail_packet, work_complete_packet,
}
use rustygear.Outcome.{ok, err, invalid_packet_type}
use rustygear.Packet.{Packet, new_res, no_response, next_field}
use rustygear.Packet.Fields.{HasNo, next_field-append, next_field-HasNo}
use rustygear.Prelude.{
  none, false, ℕ, ◌<◌, ◌≡◌, ◌^◌, refl, ap, ◌∙◌, some, List, ◌∷◌, ◌++◌, [], arith, Bytes, nat_eq,
  bytes_eq,
}
use rustygear.Prelude.Assoc
use rustygear.Service.Completed.{deliveries, Connected, send_all-Connected}
use rustygear.Service.Created.{Healthy, sending}
use rustygear.Service.Locks.{with_waiters-open}
use rustygear.Service.State.{Server, GearmanService}
use rustygear.Service
use rustygear.Service.{arm}
use rustygear.Service.Handlers
use rustygear.Text.Decimal.{show, show-HasNo}
use rustygear.Worker.{WrappingSet}

-- The update that reaches the client for a channel.
abbrev pub updated : ℕ → WorkUpdate → Client → Client
updated tx update st = record st { updates = st.updates ++ (tx, update) ∷ [] }

pub deliver-some :
    (h : Bytes) (u : WorkUpdate) (tx : ℕ) (st : Client)
    → Assoc.get h st.senders_by_handle ≡ some tx
    → deliver h u st ≡ (ok tt, updated tx u st)
unfolding deliver
deliver-some h u tx st e = rw (e, deliver) refl

module _ {F : Type 0} where
  -- The server hands an update on to the waiters as it is.
  handle_work_update-Connected :
      (svc : GearmanService) (p : Packet) (sv : Server F) (h : Bytes) (cs : List ℕ)
      → Healthy sv
      → (next_field p.body).0 ≡ h
      → Assoc.get h sv.job_waiters.value ≡ some cs
      → Connected cs sv.senders.value
      → Service.Handlers.handle_work_update svc p sv
        ≡ (ok no_response, sending (deliveries cs p sv.senders.value) sv)
  unfolding Service.Handlers.handle_work_update
  handle_work_update-Connected svc p sv h cs good same e here =
      with_waiters-open _ sv good.waiters
      ∙ rw same (
          rw (e, Service.Handlers.handle_work_update)
            (rw (send_all-Connected cs p sv good.senders here) refl))

  -- The WORK_STATUS that a worker makes of two numbers below 2 ^ 32 is handed on by the server, its
  -- mutexes not poisoned, to every connected waiter of the handle as it is, and a client that has a
  -- job under that handle reads the two numbers from it.
  pub work_status-delivers :
      (svc : GearmanService) (sv : Server F) (job : WorkerJob) (n d : ℕ) (cs : List ℕ)
      (reader : ClientHandler) (st : Client) (tx : ℕ)
      → n < 2 ^ 32
      → d < 2 ^ 32
      → HasNo 0 job.handle
      → Healthy sv
      → Assoc.get job.handle sv.job_waiters.value ≡ some cs
      → Connected cs sv.senders.value
      → Assoc.get job.handle st.senders_by_handle ≡ some tx
      → let p = work_status_packet job n d in
        (Service.Handlers.handle_work_update svc p sv
          ≡ (ok no_response, sending (deliveries cs p sv.senders.value) sv))
        × (call reader p st ≡ (ok no_response, updated tx (WorkUpdate.status job.handle n d) st))
  unfolding work_status_packet new_res call handle_work_update work_update
  work_status-delivers svc sv job n d cs reader st tx hn hd hh good e here known =
      let cut = next_field-append job.handle (show n ++ 0 ∷ show d) hh in
      (
        handle_work_update-Connected svc (work_status_packet job n d) sv job.handle cs good
            (ap (λ (r : Bytes × Bytes). r.0) cut) e here,
        rw cut (
            rw (next_field-append (show n) (show d) (show-HasNo n)) (
              rw (next_field-HasNo (show d) (show-HasNo d)) (
                rw (parse_or_panic-show usize_bound n st (omega arith)) (
                  rw (parse_or_panic-show usize_bound d st (omega arith)) (
                    rw (deliver-some job.handle (WorkUpdate.status job.handle n d) tx st known)
                      refl))))),
      )

-- A client that has a job under a handle without nulls reads the WORK_COMPLETE that a worker makes
-- of a response as a completion of that job, but of the response it keeps only what stands before
-- the first null.
pub work_complete-WorkUpdate :
    (job : WorkerJob) (response : Bytes) (reader : ClientHandler) (st : Client) (tx : ℕ)
    → HasNo 0 job.handle
    → Assoc.get job.handle st.senders_by_handle ≡ some tx
    → call reader (work_complete_packet job response) st
      ≡ (ok no_response, updated tx (WorkUpdate.complete job.handle (next_field response).0) st)
unfolding work_complete_packet new_res call handle_work_update work_update
work_complete-WorkUpdate job response reader st tx hh known =
    rw (next_field-append job.handle response hh) (
      rw
        (deliver-some job.handle (WorkUpdate.complete job.handle (next_field response).0) tx st
          known)
        refl)

send_for-open :
    (job : WorkerJob) (p : Packet) (st : Client)
    → Finite.contains job.sink_tx st.closed ≡ false
    → send_for job p st ≡ (ok tt, record st { sinks = st.sinks ++ (job.sink_tx, p) ∷ [] })
unfolding send_for send
send_for-open job p st e = rw (e, send_for, send) refl

module _ {F : Type 0} ⦃w : WrappingSet F⦄ where
  -- When the closure of a worker fails, its task sends one WORK_FAIL for the job on its connection
  -- (its channel open); the server (debug logging off) answers this packet with an error, in every
  -- state, which the reader of the connection drops: nothing changes and nothing is sent, while a
  -- client that waits for the job would read the packet as its failure, the handle without nulls.
  pub work_fail-refused :
      (svc : GearmanService) (sv : Server F) (job : WorkerJob) (worker : Client)
      (reader : ClientHandler) (st : Client) (tx ch : ℕ)
      → HasNo 0 job.handle
      → Finite.contains job.sink_tx worker.closed ≡ false
      → Assoc.get job.handle st.senders_by_handle ≡ some tx
      → let p = work_fail_packet job in
        (run_job none job worker ≡ record worker { sinks = worker.sinks ++ (job.sink_tx, p) ∷ [] })
        × (Service.call false svc p sv ≡ (err (invalid_packet_type Constants.work_fail), sv))
        × (serve false svc ch p sv ≡ (ok tt, sv))
        × (call reader p st ≡ (ok no_response, updated tx (WorkUpdate.fail job.handle) st))
  unfolding work_fail_packet new_res Service.call arm run_job work_fail serve call
      handle_work_update work_update
  work_fail-refused svc sv job worker reader st tx ch hh opened known = (
    rw (send_for-open job (work_fail_packet job) worker opened, run_job, work_fail) refl,
    refl,
    refl,
    rw (next_field-HasNo job.handle hh)
        (rw (deliver-some job.handle (WorkUpdate.fail job.handle) tx st known) refl),
  )
