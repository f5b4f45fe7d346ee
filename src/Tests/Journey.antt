-- ===== src/Tests/Journey.antt =====
-- One job through the client library and the server, at concrete inputs.
use rustygear.Client.Handlers.{call}
use rustygear.Client.Delivery.{known}
use rustygear.Client.Journey.{response-submit}
use rustygear.Client.Ready.{sending}
use rustygear.Constants
use rustygear.Client.Work.{work_complete_packet}
use rustygear.Client.Requests.{
  submission_body, add_server, connect, response, submit, submit_response, take_update,
}
use rustygear.Client.State.{channel, with_conns, new, Client, ClientJob, WorkerJob, WorkUpdate}
use rustygear.Outcome.{ok}
use rustygear.Packet.{new_req, Packet, next_field, no_response}
use rustygear.Prelude.{true, ◌≡◌, refl, none, some, [], ◌∷◌, ◌++◌, Bytes, bytes_eq, nat_eq, codes}
use rustygear.Prelude.Assoc
use rustygear.Queues.{empty_queues, func_queues, new_job_storage}
use rustygear.Service.Handlers.{handle_grab_job, handle_work_complete}
use rustygear.Service.Submit.{handle_of, handle_submit_job, job_created}
use rustygear.Tests.Client.{linked, linked-Ready, reader}
use rustygear.Tests.Instances.{list_set}
use rustygear.Tests.Runs.{able, staffed, six, staffed-Healthy, able_cell, five_sender, no_waiters}
use rustygear.Tests.Service.{five}

abbrev h : Bytes
h = handle_of 3

abbrev task : WorkerJob
task = record {
  handle = h;
  function = codes "f";
  payload = (next_field (codes "x")).0;
  sink_tx = 0;
}

abbrev asked : Packet
asked = new_req Constants.submit_job (submission_body (codes "f") (codes "u") (codes "x"))

abbrev report : Packet
report = work_complete_packet task (codes "ok")

abbrev waiting : Client
waiting = record (sending 0 asked linked) { job_created = h ∷ [] }

abbrev created : ClientJob
created = record { handle = h; response_rx = linked.next_channel }

idle : linked.job_created ≡ []
unfolding connect add_server new channel with_conns
idle = refl

unknown_handle : Assoc.get h linked.senders_by_handle ≡ none
unfolding Assoc.get connect add_server new channel with_conns
unknown_handle = refl

no_update : take_update linked.next_channel linked.updates ≡ none
unfolding take_update connect add_server new channel with_conns
no_update = refl

no_job : Assoc.get (codes "u") staffed.queues.value.jobs ≡ none
unfolding Assoc.get new_job_storage
no_job = refl

no_queues : func_queues (codes "f") staffed.queues.value.queues ≡ empty_queues
unfolding func_queues Assoc.get new_job_storage
no_queues = refl

response-submit_example :
    let (answer, st1) = handle_submit_job five 1 true asked staffed in
    let (assigned, st2) = handle_grab_job six st1 in
    let (reported, st3) = handle_work_complete six report st2 in
    (submit (codes "f") (codes "u") (codes "x") linked ≡ (ok tt, sending 0 asked linked))
    × (answer ≡ ok (job_created h))
    × (call reader (job_created h) (sending 0 asked linked) ≡ (ok no_response, waiting))
    × (submit_response waiting ≡ some (ok created, known h [] waiting))
    × ((packet : Packet) × (assigned ≡ ok packet)
        × (call reader packet linked
            ≡ (ok no_response, record linked { worker_job = linked.worker_job ++ task ∷ [] })))
    × (st3.sent ≡ st1.sent ++ (1, report) ∷ [])
    × (response created (call reader report (known h [] waiting)).1
        ≡ some (WorkUpdate.complete h (next_field (codes "ok")).0, known h [] waiting))
response-submit_example =
    response-submit five six 0 0 (codes "f") (codes "u") (codes "x") (codes "ok") linked linked
      reader reader staffed able 1 linked-Ready (refl, tt) (refl, tt) idle unknown_handle no_update
      staffed-Healthy no_job no_queues able_cell refl five_sender no_waiters
