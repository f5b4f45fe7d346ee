-- ===== src/Admin.antt =====
-- rustygeard/src/admin.rs: the reports of the administration protocol.
pub mod Report
use rustygear.Packet.{Packet, new_text_res}
use rustygear.Prelude.{
  ℕ, ◌+◌, none, some, List, [], ◌∷◌, ◌++◌, Bytes, bytes_eq, nat_eq, codes, length,
}
use rustygear.Prelude.Assoc.{Map}
use rustygear.Queues.{JobQueue, JobQueues}
use rustygear.Service.State.{
  M, pure, panics, modify, ◌>>=◌, ◌>>◌, with_queues, with_workers, with_conns, with_worker,
  put_worker,
}
use rustygear.Text.{from_utf8}
use rustygear.Text.Decimal.{show}
use rustygear.Worker.{WrappingSet, count_workers, iter}

unfoldable pub queue_total : List JobQueue → ℕ
queue_total [] = 0
queue_total (q ∷ qs) = length q + queue_total qs

-- `format!("\t{}\t{}\t{}\n", ...)`, behind the name of the function.
unfoldable pub status_line : Bytes → ℕ → ℕ × ℕ → Bytes
status_line func qtot (active, inactive) =
    func
    ++ (b'\t'
        ∷ (show qtot ++ b'\t' ∷ (show active ++ b'\t' ∷ (show (inactive + active) ++ b'\n' ∷ []))))

unfoldable pub function_list : List Bytes → Bytes
function_list [] = []
function_list (f ∷ fs) = b' ' ∷ (f ++ function_list fs)

-- `format!("{} {} {} :", ...)` and the functions.
unfoldable pub worker_line : ℕ → Bytes → Bytes → List Bytes → Bytes
unfolding function_list
worker_line conn_id peer_addr client_id fs =
    show conn_id
    ++ (b' '
        ∷ (peer_addr ++ b' ' ∷ (client_id ++ (b' ' ∷ b':' ∷ (function_list fs ++ b'\n' ∷ [])))))

module _ {F : Type 0} where
  -- One line for each function that has queues; the workers are locked for each count.
  unfoldable pub status_lines : JobQueues → M F Bytes
  unfolding queue_total status_line
  status_lines [] = pure (codes ".\n")
  status_lines ((func, qs) ∷ m) = do
    counts ← with_workers λ workers. pure (count_workers func workers)
    rest ← status_lines m
    pure (status_line func (queue_total qs) counts ++ rest)

  unfoldable pub admin_command_status : M F Packet
  unfolding status_lines new_text_res
  admin_command_status =
      with_queues λ s. do response ← status_lines s.queues; pure (new_text_res response)

module _ {F : Type 0} ⦃w : WrappingSet F⦄ where
  -- The line of one connection; a client id that is no UTF-8 panics.
  unfoldable pub report_worker : ℕ → ℕ → M F Bytes
  unfolding worker_line
  report_worker conn_id k = with_worker k λ worker. elim (from_utf8 worker.client_id) [
    | none ↦ panics
    | some client_id ↦
        let (fs, worker') = iter worker in
        do
          modify (put_worker k worker')
          pure (worker_line conn_id worker.peer_addr worker.client_id fs)
  ]

  unfoldable pub worker_lines : Map ℕ ℕ → M F Bytes
  unfolding report_worker
  worker_lines [] = pure (codes ".\n")
  worker_lines ((conn_id, k) ∷ m) = do
    line ← report_worker conn_id k
    rest ← worker_lines m
    pure (line ++ rest)

  unfoldable pub admin_command_workers : M F Packet
  unfolding worker_lines new_text_res
  admin_command_workers =
      with_conns λ conns. do response ← worker_lines conns; pure (new_text_res response)
