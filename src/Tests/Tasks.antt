-- ===== src/Tests/Tasks.antt =====
-- A client that works and one that waits, at concrete inputs: rustygear/src/client.rs.
use rustygear.Client.State.{ClientJob}
use rustygear.Client.State.{with_conns}
use rustygear.Client.State.{channel}
use rustygear.Client.Handlers.{call}
use rustygear.Client.Jobs.{can_do-work_turn}
use rustygear.Client.Ready.{Ready}
use rustygear.Client.Requests.{add_server, connect}
use rustygear.Client.State.{Client, WorkUpdate, new}
use rustygear.Client.Work.{can_do, work_turn, work_complete_packet}
use rustygear.Constants
use rustygear.Mutex.{unlocked}
use rustygear.Outcome.{ok}
use rustygear.Packet.{next_field, new_req, no_response}
use rustygear.Prelude.{◌≡◌, refl, false, none, some, [], ◌∷◌, ◌++◌, bytes_eq, nat_eq, codes}
use rustygear.Prelude.Assoc
use rustygear.Prelude.Finite
use rustygear.Tests.Instances.{list_set}
use rustygear.Tests.Client.{linked, job, h, reader}
use rustygear.Client.Delivery.{known, submit_response-response}
use rustygear.Client.Requests.{response, submit_response, take_update}

-- The same client as a worker, with the job that was assigned to it.
abbrev assigned : Client
assigned = record linked { worker_job = job ∷ [] }

assigned-Ready : Ready 0 0 assigned
unfolding connect add_server new channel with_conns Assoc.get Assoc.insert Finite.contains
assigned-Ready = record {
  others = [];
  client_id = none;
  conns = refl;
  handler = refl;
  opened = refl;
}

alone : assigned.conns ≡ unlocked (0 ∷ [])
unfolding connect add_server new channel with_conns
alone = refl

unregistered : Assoc.get job.function assigned.jobs_tx_by_func ≡ none
unfolding Assoc.get connect add_server new channel with_conns
unregistered = refl

task_open : Finite.contains assigned.next_channel assigned.closed ≡ false
unfolding Finite.contains connect add_server new channel with_conns
task_open = refl

can_do-work_turn_example :
    let (task, offered) = can_do (codes "f") assigned in
    (task ≡ ok assigned.next_channel)
    × (offered.sinks ≡ assigned.sinks ++ (0, new_req Constants.can_do (codes "f")) ∷ [])
    × (work_turn offered ≡ (
      ok tt,
      record offered {
        worker_job = [];
        assigned = assigned.assigned ++ (assigned.next_channel, job) ∷ [];
      },
    ))
can_do-work_turn_example =
    can_do-work_turn 0 0 job [] assigned assigned-Ready alone unregistered task_open refl

-- A client whose submission was answered.
abbrev answered : Client
answered = record linked { job_created = h ∷ [] }

unknown_handle : Assoc.get h answered.senders_by_handle ≡ none
unfolding Assoc.get connect add_server new channel with_conns
unknown_handle = refl

no_update : take_update answered.next_channel answered.updates ≡ none
unfolding take_update connect add_server new channel with_conns
no_update = refl

submit_response-response_example :
    let q = work_complete_packet job (codes "xy") in
    let created : ClientJob = record { handle = h; response_rx = answered.next_channel } in
    let up = known h [] answered in
    (submit_response answered ≡ some (ok created, up))
    × (response created (call reader q up).1
        ≡ some (WorkUpdate.complete h (next_field (codes "xy")).0, up))
    × (call reader q answered ≡ (ok no_response, answered))
    × (response created up ≡ none)
submit_response-response_example =
    submit_response-response job (codes "xy") reader [] answered (refl, tt) refl unknown_handle
      no_update
