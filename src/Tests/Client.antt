-- ===== src/Tests/Client.antt =====
-- A client at concrete inputs: rustygear/src/client.rs.
use rustygear.Client.Handlers.{handle_echo_res}
use rustygear.Client.State.{with_handler}
use rustygear.Client.State.{with_conns}
use rustygear.Client.State.{channel}
use rustygear.Client.Handlers.{call}
use rustygear.Client.Jobs.{job_assign-WorkerJob}
use rustygear.Client.Progress.{
  updated, work_status-delivers, work_complete-WorkUpdate, work_fail-refused,
}
use rustygear.Client.Ready.{Ready, sending}
use rustygear.Client.Requests.{add_server, connect, register, direct_submit, submission_body, echo}
use rustygear.Client.State.{Client, ClientHandler, WorkerJob, WorkUpdate, new}
use rustygear.Client.Status.{get_status-JobStatus}
use rustygear.Client.Submission.{direct_submit-Frames}
use rustygear.Codec.RoundTrip.{Frames}
use rustygear.Server.{serve}
use rustygear.Client.Work.{run_job, work_status_packet, work_complete_packet, work_fail_packet}
use rustygear.Constants
use rustygear.Job.{Arc}
use rustygear.Mutex.{unlocked}
use rustygear.Outcome.{ok, err, invalid_packet_type}
use rustygear.Packet.{next_field, Packet, new_req, no_response}
use rustygear.Prelude.{
  ◌<◌, ◌^◌, length, ◌≡◌, refl, true, false, none, some, List, [], ◌∷◌, ◌++◌, arith, Bytes, bytes_eq,
  nat_eq, codes,
}
use rustygear.Prelude.Assoc
use rustygear.Prelude.Finite
use rustygear.Service
use rustygear.Service.Completed.{Connected, deliveries}
use rustygear.Service.Created.{Healthy}
use rustygear.Service.Handlers
use rustygear.Service.Handlers.{is_some, assign_body, job_answer}
use rustygear.Service.State.{Server}
use rustygear.Service.Submit.{handle_of, handle_submit_job, job_created}
use rustygear.Tests.Instances.{network_order, list_set}
use rustygear.Tests.Service.{start, five, start-Healthy}
use rustygear.Queues.{new_job_storage, func_queues}
use rustygear.Worker.{get_assigned_job, Worker}

-- A client of one server, which could be reached.
abbrev pub linked : Client
linked = (connect (λ i. true) (add_server (codes "a:1") new)).1

pub linked-Ready : Ready 0 0 linked
unfolding connect add_server new channel with_conns Assoc.get Assoc.insert Finite.contains
linked-Ready = record { others = []; client_id = none; conns = refl; handler = refl; opened = refl }

-- An echo is sent on the connection, and comes back.
abbrev pub reader : ClientHandler
reader = record { client_id = none; sink_tx = 0 }

echo-run : (echo (codes "x") linked).1.sinks ≡ (0, new_req Constants.echo_req (codes "x")) ∷ []
unfolding echo with_conns connect add_server new channel with_handler Assoc.get Assoc.insert
    Finite.contains
echo-run = refl

echoed-run : (call reader (new_req Constants.echo_res (codes "x")) linked).1.echo ≡ codes "x" ∷ []
unfolding call new_req handle_echo_res connect add_server new channel with_conns
echoed-run = refl

short : length (submission_body (codes "f") (codes "u") (codes "x")) < 2 ^ 32
unfolding submission_body
short = omega arith

unseen : Assoc.get (codes "u") start.queues.value.jobs ≡ none
unfolding new_job_storage Assoc.get
unseen = refl

in_range : 1 < length (func_queues (codes "f") start.queues.value.queues)
unfolding new_job_storage Assoc.get func_queues
in_range = omega arith

direct_submit-Frames_example :
    (p : Packet) × (frame : Bytes) × (direct_submit 7 (codes "f") (codes "u") (codes "x") linked
      ≡ (ok tt, sending 0 p linked))
    × Frames true p frame
    × (p.ptype ≡ 7)
    × ((handle_submit_job five 1 true p start).0 ≡ ok (job_created (handle_of 3)))
    × (Assoc.get (codes "u") (handle_submit_job five 1 true p start).1.queues.value.jobs
        ≡ some (record {
          alloc = 0;
          job = record {
            handle = handle_of 3;
            fname = codes "f";
            unique = codes "u";
            payload = codes "x";
          };
        }))
direct_submit-Frames_example =
    direct_submit-Frames true 7 0 0 1 true five (codes "f") (codes "u") (codes "x") linked start
      linked-Ready (refl, tt) (refl, tt) (omega arith) short start-Healthy unseen in_range

-- A job that a worker has, and the client that waits for it.
abbrev pub h : Bytes
h = b'h' ∷ []

abbrev pub job : WorkerJob
job = record { handle = h; function = codes "f"; payload = codes "x"; sink_tx = 0 }

abbrev waiting : Client
waiting = (register h linked).1

registered : Assoc.get h waiting.senders_by_handle ≡ some 1
unfolding Assoc.get register Assoc.insert connect add_server new with_conns
registered = refl

abbrev waited : Server (List Bytes)
waited = record start { job_waiters = record { value = (h, 5 ∷ []) ∷ []; poisoned = false } }

waited-Healthy : Healthy waited
waited-Healthy = record { queues = refl; workers = refl; senders = refl; waiters = refl }

waiter_known : Assoc.get h waited.job_waiters.value ≡ some (5 ∷ [])
unfolding Assoc.get
waiter_known = refl

waiter-Connected : Connected (5 ∷ []) waited.senders.value
unfolding is_some Assoc.get
waiter-Connected = (refl, tt)

work_status-delivers_example :
    (Service.Handlers.handle_work_update five (work_status_packet job 3 10) waited ≡ (
      ok no_response,
      Service.Created.sending
          (deliveries (5 ∷ []) (work_status_packet job 3 10) waited.senders.value)
          waited,
    ))
    × (call reader (work_status_packet job 3 10) waiting
        ≡ (ok no_response, updated 1 (WorkUpdate.status h 3 10) waiting))
work_status-delivers_example =
    work_status-delivers five waited job 3 10 (5 ∷ []) reader waiting 1 (omega arith) (omega arith)
      (refl, tt) waited-Healthy waiter_known waiter-Connected registered

work_complete-WorkUpdate_example :
    call reader (work_complete_packet job (codes "xy")) waiting
    ≡ (ok no_response, updated 1 (WorkUpdate.complete h (next_field (codes "xy")).0) waiting)
work_complete-WorkUpdate_example =
    work_complete-WorkUpdate job (codes "xy") reader waiting 1 (refl, tt) registered

sink_open : Finite.contains job.sink_tx linked.closed ≡ false
unfolding Finite.contains connect add_server new channel with_conns
sink_open = refl

work_fail-refused_example :
    (run_job none job linked
      ≡ record linked { sinks = linked.sinks ++ (0, work_fail_packet job) ∷ [] })
    × (Service.call false five (work_fail_packet job) start
        ≡ (err (invalid_packet_type Constants.work_fail), start))
    × (serve false five 1 (work_fail_packet job) start ≡ (ok tt, start))
    × (call reader (work_fail_packet job) waiting
        ≡ (ok no_response, updated 1 (WorkUpdate.fail h) waiting))
work_fail-refused_example =
    work_fail-refused five start job linked reader waiting 1 1 (refl, tt) sink_open registered

-- The worker of connection 5 has no job; nobody knows one of this handle.
abbrev idle : Worker (List Bytes)
idle = record { peer_addr = []; functions = []; client_id = []; jobs = [] }

idle_cell : Assoc.get 5 start.cells ≡ some (unlocked idle)
unfolding Assoc.get
idle_cell = refl

get_status-JobStatus_example :
    (answer : Packet) × (Service.Handlers.handle_get_status five
        (new_req Constants.get_status h)
        start
      ≡ (ok answer, start))
    × (call reader answer linked ≡ (
      ok no_response,
      record linked {
        status_res =
            linked.status_res
            ++ (record {
              handle = h;
              known = is_some (Assoc.get h start.job_waiters.value);
              running = is_some (get_assigned_job h idle);
              numerator = 0;
              denominator = 0;
              waiting = 0;
            })
              ∷ [];
      },
    ))
get_status-JobStatus_example =
    get_status-JobStatus five start idle h reader linked (refl, tt) refl idle_cell

abbrev stored : Arc
stored = record {
  alloc = 0;
  job = record { handle = h; fname = codes "f"; unique = codes "u"; payload = codes "x" };
}

job_assign-WorkerJob_example :
    call reader (job_answer Constants.job_assign assign_body (some stored)) linked ≡ (
      ok no_response,
      record linked {
        worker_job =
            linked.worker_job
            ++ (record {
              handle = h;
              function = codes "f";
              payload = (next_field (codes "x")).0;
              sink_tx = 0;
            })
              ∷ [];
      },
    )
job_assign-WorkerJob_example = job_assign-WorkerJob stored reader linked (refl, tt) (refl, tt)
