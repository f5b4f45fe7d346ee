-- ===== src/Client/Work.antt =====
-- rustygear/src/client.rs: `WorkerJob`, and `Client` as it is used to work on jobs.
use rustygear.Constants
use rustygear.Client.Requests.{send, send_packet}
use rustygear.Client.State.{
  WorkerJob, Client, C, pure, fails, ◌>>=◌, ◌>>◌, modify, with_conns, with_handler, channel,
}
use rustygear.Outcome.{ok, err, connection_closed, unregistered_function}
use rustygear.Packet.{Packet, new_req, new_res}
use rustygear.Prelude.{
  ℕ, Option, none, some, List, [], ◌∷◌, ◌++◌, Bytes, bytes_eq, nat_eq, if◌then◌else◌,
}
use rustygear.Prelude.Assoc
use rustygear.Prelude.Assoc.{Map}
use rustygear.Prelude.Finite
use rustygear.Text.Decimal.{show}

unfoldable pub work_status_packet : WorkerJob → ℕ → ℕ → Packet
work_status_packet job numerator denominator =
    new_res Constants.work_status (job.handle ++ 0 ∷ (show numerator ++ 0 ∷ show denominator))

unfoldable pub work_fail_packet : WorkerJob → Packet
work_fail_packet job = new_res Constants.work_fail job.handle

unfoldable pub work_complete_packet : WorkerJob → Bytes → Packet
work_complete_packet job response = new_res Constants.work_complete (job.handle ++ 0 ∷ response)

-- `WorkerJob::send_packet`
unfoldable pub send_for : WorkerJob → Packet → C (Unit {0})
unfolding send
send_for job packet = do
  sent ← send job.sink_tx packet
  if sent then pure tt else fails (err connection_closed)

unfoldable pub work_status : WorkerJob → ℕ → ℕ → C (Unit {0})
unfolding work_status_packet send_for
work_status job numerator denominator = send_for job (work_status_packet job numerator denominator)

unfoldable pub work_fail : WorkerJob → C (Unit {0})
unfolding work_fail_packet send_for
work_fail job = send_for job (work_fail_packet job)

unfoldable pub work_complete : WorkerJob → Bytes → C (Unit {0})
unfolding work_complete_packet send_for
work_complete job response = send_for job (work_complete_packet job response)

-- `entry(k).or_insert(tx)`
unfoldable pub or_insert : Bytes → ℕ → Map Bytes ℕ → Map Bytes ℕ
or_insert function tx m = elim (Assoc.get function m) [
  | none ↦ Assoc.insert function tx m
  | some old ↦ m
]

-- One connection, whose handler is locked while the function is registered.
unfoldable pub offer : Bytes → ℕ → ℕ → C (Unit {0})
unfolding or_insert send_packet
offer function tx conn = do
  with_handler conn λ handler.
      modify λ st. record st { jobs_tx_by_func = or_insert function tx st.jobs_tx_by_func }
  send_packet conn (new_req Constants.can_do function)

unfoldable pub offer_all : Bytes → ℕ → List ℕ → C (Unit {0})
unfolding offer
offer_all function tx [] = pure tt
offer_all function tx (c ∷ cs) = do offer function tx c; offer_all function tx cs

-- The result is the channel of the task that runs the closure.
unfoldable pub can_do : Bytes → C ℕ
unfolding channel offer_all
can_do function = do tx ← channel; with_conns λ conns. offer_all function tx conns; pure tx

-- One job of that task, for what the closure returns; a failed send is only logged.
unfoldable pub run_job : Option Bytes → WorkerJob → Client → Client
unfolding work_fail work_complete
run_job none job st = (work_fail job st).1
run_job (some response) job st = (work_complete job response st).1

unfoldable pub grab_all : List ℕ → C (Unit {0})
unfolding send_packet
grab_all [] = pure tt
grab_all (c ∷ cs) = do send_packet c (new_req Constants.grab_job []); grab_all cs

-- A job goes to the task of its function; a send to a task that has ended is only logged.
unfoldable pub assign : WorkerJob → C (Unit {0})
assign job st = elim (Assoc.get job.function st.jobs_tx_by_func) [
  | none ↦ (err (unregistered_function job.function), st)
  | some tx ↦ (
    ok tt,
    if Finite.contains tx st.closed
        then st
        else record st { assigned = st.assigned ++ (tx, job) ∷ [] },
  )
]

-- One round of the loop of `work`, up to where it waits: with no job there, each connection is
-- asked for one.
unfoldable pub work_turn : C (Unit {0})
unfolding grab_all assign
work_turn st = elim st.worker_job [
  | [] ↦ with_conns grab_all st
  | job ∷ rest ↦ assign job (record st { worker_job = rest })
]
