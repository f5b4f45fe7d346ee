-- ===== src/Admin/Report.antt =====
-- The report `status` of rustygeard/src/admin.rs against the queues and the workers.
use rustygear.Prelude.Assoc
use rustygear.Admin.{queue_total, status_line, status_lines, admin_command_status}
use rustygear.Outcome.{ok}
use rustygear.Packet.{new_text_res}
use rustygear.Prelude.{
  inr, inl, Option-cases, none, some, bytes_eq, ℕ, ◌+◌, ◌≡◌, refl, sym, ap, ◌∙◌, false, List, [],
  ◌∷◌, ◌++◌, Bytes, codes, length, length-append,
}
use rustygear.Queues.{JobQueue, JobQueues}
use rustygear.Queues.Search.{in_order}
use rustygear.Service.Locks.{with_queues-open, with_workers-open}
use rustygear.Service.State.{Server, pure}
use rustygear.Text.Decimal.{show}
use rustygear.Worker.{Workers, count_workers}

queue_total-in_order : (qs : List JobQueue) → queue_total qs ≡ length (in_order qs)
unfolding queue_total in_order
queue_total-in_order [] = refl
queue_total-in_order (q ∷ qs) =
    ap (λ (n : ℕ). length q + n) (queue_total-in_order qs) ∙ sym (length-append q (in_order qs))

-- The two sets of a function in the table of workers, empty where it has no entry.
abbrev pub awake_for : Bytes → Workers → List ℕ
awake_for func ws = elim (Assoc.get func ws.allworkers) [ none ↦ [] | some s ↦ s.active ]

abbrev pub asleep_for : Bytes → Workers → List ℕ
asleep_for func ws = elim (Assoc.get func ws.allworkers) [ none ↦ [] | some s ↦ s.inactive ]

-- A line of some fields with a tab between each two.
abbrev pub tabbed : List Bytes → Bytes
tabbed [] = codes "\n"
tabbed (x ∷ []) = x ++ codes "\n"
tabbed (x ∷ (y ∷ ys)) = x ++ b'\t' ∷ tabbed (y ∷ ys)

-- For each function: its name, how many entries wait in its three queues together, how many of its
-- connections are awake, and how many it has, asleep or awake.
unfoldable pub report : JobQueues → Workers → Bytes
unfolding in_order
report [] ws = codes ".\n"
report ((func, qs) ∷ m) ws =
    tabbed (
      func
      ∷ show (length (in_order qs))
      ∷ show (length (awake_for func ws))
      ∷ show (length (asleep_for func ws ++ awake_for func ws))
      ∷ [])
    ++ report m ws

count_workers-lengths :
    (func : Bytes) (ws : Workers)
    → count_workers func ws ≡ (length (awake_for func ws), length (asleep_for func ws))
unfolding count_workers
count_workers-lengths func ws = elim (Option-cases (Assoc.get func ws.allworkers)) [
  | inl e ↦ rw (e, count_workers, awake_for, asleep_for) refl
  | inr (s, e) ↦ rw (e, count_workers, awake_for, asleep_for) refl
]

status_line-report :
    (func : Bytes) (n : ℕ) (ws : Workers)
    → status_line func n (count_workers func ws)
      ≡ tabbed (
          func
          ∷ show n
          ∷ show (length (awake_for func ws))
          ∷ show (length (asleep_for func ws ++ awake_for func ws))
          ∷ [])
unfolding status_line
status_line-report func n ws =
    rw (count_workers-lengths func ws, length-append (asleep_for func ws) (awake_for func ws)) refl

module _ {F : Type 0} where
  status_lines-report :
      (m : JobQueues) (st : Server F)
      → st.workers.poisoned ≡ false
      → status_lines m st ≡ (ok (report m st.workers.value), st)
  unfolding status_lines report
  status_lines-report [] st good = refl
  status_lines-report ((func, qs) ∷ m) st good =
      rw (with_workers-open {A = ℕ × ℕ} (λ workers. pure (count_workers func workers)) st good) (
        rw (status_lines-report m st good, queue_total-in_order qs)
          (rw (status_line-report func (length (in_order qs)) st.workers.value) refl))

  -- While neither the storage nor the table of workers is poisoned, the report `status` changes
  -- nothing and has, for each function that has queues, in the order of that table, a line of four
  -- fields with tabs between them: the name, the number of the entries of its three queues
  -- together, how many connections are in its active set, and how many in its inactive and its
  -- active set together (none where the function has no entry in the table of workers); a line with
  -- a dot ends it.
  pub admin_command_status-report :
      (st : Server F)
      → st.queues.poisoned ≡ false
      → st.workers.poisoned ≡ false
      → admin_command_status st
        ≡ (ok (new_text_res (report st.queues.value.queues st.workers.value)), st)
  unfolding admin_command_status
  admin_command_status-report st hq hw =
      rw (with_queues-open _ st hq) (rw (status_lines-report st.queues.value.queues st hw) refl)
