-- ===== src/Service/Submit.antt =====
-- rustygeard/src/service.rs: `handle_submit_job`, and the sends to other connections.
use rustygear.Constants
use rustygear.Job
use rustygear.Job.{Arc}
use rustygear.Outcome.{ok}
use rustygear.Packet.{Packet, res, as_u32, new_res, next_field}
use rustygear.Prelude.{
  ℕ, Bool, Option, none, some, List, [], ◌∷◌, ◌++◌, Bytes, bytes_eq, nat_eq, codes, length,
  if◌then◌else◌,
}
use rustygear.Prelude.Assoc
use rustygear.Prelude.Assoc.{Map}
use rustygear.Queues.{coalesce_unique, add_job}
use rustygear.Service.State.{
  GearmanService, M, pure, panics, ◌>>=◌, ◌>>◌, with_queues, with_workers, with_senders,
  with_waiters, put_queues, put_workers, put_waiters, fetch_add, allocate, spawn_send,
}
use rustygear.Text.Decimal.{show_padded}
use rustygear.Worker.{queue_wake}

unfoldable pub new_noop : Packet
unfolding new_res
new_noop = new_res Constants.noop []

-- `format!("H:{:010}", job_num)`
unfoldable pub handle_of : ℕ → Bytes
handle_of n = codes "H:" ++ show_padded n

-- `job_waiters.entry(handle).or_insert(Vec::new())`, with this connection added if it waits.
unfoldable pub add_waiter : Bytes → Bool → ℕ → Map Bytes (List ℕ) → Map Bytes (List ℕ)
add_waiter handle wait conn_id m =
    let waiters : List ℕ = elim (Assoc.get handle m) [ none ↦ [] | some cs ↦ cs ] in
    Assoc.insert handle (if wait then waiters ++ conn_id ∷ [] else waiters) m

unfoldable pub job_created : Bytes → Packet
job_created handle = record {
  magic = res;
  ptype = Constants.job_created;
  psize = as_u32 (length handle);
  body = handle;
}

module _ {F : Type 0} where
  -- A connection that is not there is a panic, with the lock of the senders held.
  unfoldable pub send_to_conn_id : ℕ → Packet → M F (Unit {0})
  send_to_conn_id conn_id p =
      with_senders
        λ senders. elim (Assoc.get conn_id senders) [ none ↦ panics | some tx ↦ spawn_send tx p ]

  unfoldable pub send_all : List ℕ → Packet → M F (Unit {0})
  unfolding send_to_conn_id
  send_all [] p = pure tt
  send_all (c ∷ cs) p = do send_to_conn_id c p; send_all cs p

  unfoldable pub wake_one : Option ℕ → M F (Unit {0})
  wake_one none = pure tt
  wake_one (some tx) = spawn_send tx new_noop

  -- The loop over the connections to wake: one that is not there is passed over.
  unfoldable pub wake_all : List ℕ → M F (Unit {0})
  unfolding wake_one
  wake_all [] = pure tt
  wake_all (c ∷ cs) = do with_senders (λ senders. wake_one (Assoc.get c senders)); wake_all cs

  -- `workers.queue_wake(&fname)`, the lock of the workers held for the call.
  unfoldable pub wake_list : Bytes → M F (List ℕ)
  wake_list fname = with_workers λ workers st.
      let (conns, workers') = queue_wake fname workers in (ok conns, put_workers workers' st)

  unfoldable pub coalesce : Bytes → Option ℕ → M F (Option Bytes)
  coalesce unique remote =
      with_queues
        λ s st. let (found, s') = coalesce_unique unique remote s in (ok found, put_queues s' st)

  unfoldable pub store_job : Arc → ℕ → Option ℕ → M F (Unit {0})
  store_job a priority remote =
      with_queues
        λ s st. let (result, s') = add_job a priority remote s in (result, put_queues s' st)

  -- The job gets the next handle, and is stored.
  unfoldable pub new_job : ℕ → Option ℕ → Bytes → Bytes → Bytes → M F Bytes
  unfolding store_job
  new_job priority remote fname unique payload = do
    job_num ← fetch_add
    n ← allocate
    let handle = handle_of job_num
    store_job (record { alloc = n; job = Job.new fname unique payload handle }) priority remote
    pure handle

  -- A new job, before which the sleepers are woken.
  unfoldable pub create_job : ℕ → Option ℕ → Bytes → Bytes → Bytes → M F Bytes
  unfolding wake_list wake_all new_job
  create_job priority remote fname unique payload = do
    conns ← wake_list fname
    wake_all conns
    new_job priority remote fname unique payload

  -- The handle of the job that is there, or that of a new job.
  unfoldable pub obtain_handle : ℕ → Option ℕ → Bytes → Bytes → Bytes → Option Bytes → M F Bytes
  unfolding create_job
  obtain_handle priority remote fname unique payload (some handle) = pure handle
  obtain_handle priority remote fname unique payload none =
      create_job priority remote fname unique payload

  -- The waiters of the handle, and the answer to the client.
  unfoldable pub answer_created : GearmanService → Bool → Bytes → M F Packet
  answer_created svc wait handle = do
    with_waiters λ m st. (ok tt, put_waiters (add_waiter handle wait svc.conn_id m) st)
    pure (job_created handle)

  unfoldable pub handle_submit_job : GearmanService → ℕ → Bool → Packet → M F Packet
  unfolding coalesce obtain_handle answer_created
  handle_submit_job svc priority wait packet =
      let remote : Option ℕ = if wait then some svc.conn_id else none in
      let (fname, fields) = next_field packet.body in
      let (unique, payload) = next_field fields in
      do
        found ← coalesce unique remote
        handle ← obtain_handle priority remote fname unique payload found
        answer_created svc wait handle
