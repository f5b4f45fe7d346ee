-- ===== src/Service/Answers.antt =====
-- The handles of rustygeard/src/service.rs, and what is read from the answers to a grab and to a
-- question for the status of a job.
use rustygear.Constants
use rustygear.Outcome.{ok}
use rustygear.Prelude.Assoc
use rustygear.Service.Locks.{with_waiters-open, with_worker-open}
use rustygear.Worker.{Worker, get_assigned_job}
use rustygear.Job
use rustygear.Job.{Job}
use rustygear.Packet.{Packet, next_field, new_res}
use rustygear.Packet.Fields.{HasNo, next_field-append, next_field-Splits}
use rustygear.Prelude.{
  ℕ, false, if◌then◌else◌, some, bytes_eq, ◌≡◌, refl, sym, ap, ◌∙◌, ◌∷◌, ◌++◌, Bytes, drop, nat_eq,
  codes,
}
use rustygear.Service.Created.{fname_of, unique_of, payload_of, job_of}
use rustygear.Service.Handlers.{flag, is_some, status_body, handle_get_status, assign_uniq_body}
use rustygear.Service.State.{GearmanService, Server}
use rustygear.Service.Submit.{handle_of}
use rustygear.Text.Decimal.{
  digits, show, show-HasNo, show_padded, value, value-show_padded, HasNo-append, show_padded-HasNo,
}

-- Two job numbers with the same handle are the same number.
pub handle_of-inj : (m n : ℕ) → handle_of m ≡ handle_of n → m ≡ n
unfolding handle_of
handle_of-inj m n e =
    sym (value-show_padded m) ∙ ap (λ (h : Bytes). value 0 (drop 2 h)) e ∙ value-show_padded n

pub handle_of-HasNo : (n : ℕ) → HasNo 0 (handle_of n)
unfolding handle_of
handle_of-HasNo n =
    HasNo-append 0 (codes "H:") (show_padded n) (refl, (refl, tt)) (show_padded-HasNo n)

-- The three fields of a body that hold no null, and what is behind them.
three_fields :
    (a b c rest : Bytes)
    → HasNo 0 a
    → HasNo 0 b
    → HasNo 0 c
    → let first = next_field (a ++ 0 ∷ (b ++ 0 ∷ (c ++ 0 ∷ rest))) in
      let second = next_field first.1 in
      let third = next_field second.1 in
      (first.0 ≡ a) × (second.0 ≡ b) × (third.0 ≡ c) × (third.1 ≡ rest)
three_fields a b c rest ha hb hc = rw (next_field-append a (b ++ 0 ∷ (c ++ 0 ∷ rest)) ha) (
    rw (next_field-append b (c ++ 0 ∷ rest) hb)
      (rw (next_field-append c rest hc) (refl, refl, refl, refl)))

-- From the answer to GRAB_JOB_UNIQ for a job that a submission makes, `next_field` reads the
-- handle, the function and the unique id of the submission in turn, and leaves its payload.
pub assign_uniq-fields :
    {F : Type 0} (p : Packet) (st : Server F)
    → let handle = next_field (assign_uniq_body (job_of p st).job) in
      let fname = next_field handle.1 in
      let unique = next_field fname.1 in
      (handle.0 ≡ handle_of st.job_count)
      × (fname.0 ≡ fname_of p)
      × (unique.0 ≡ unique_of p)
      × (unique.1 ≡ payload_of p)
unfolding assign_uniq_body Job.new
assign_uniq-fields p st =
    three_fields (handle_of st.job_count) (fname_of p) (unique_of p) (payload_of p)
      (handle_of-HasNo st.job_count) (next_field-Splits p.body).0
      (next_field-Splits (next_field p.body).1).0

-- While neither the waiters nor the worker of the asking connection are poisoned, GET_STATUS
-- changes nothing and its answer has, field by field, the handle, whether the handle has an entry
-- of waiters, and whether the worker of the asking connection has the job; two zeros follow.
pub get_status-answers :
    {F : Type 0} (svc : GearmanService) (p : Packet) (st : Server F) (worker : Worker F)
    → st.job_waiters.poisoned ≡ false
    → Assoc.get svc.worker st.cells ≡ some (record { value = worker; poisoned = false })
    → let known = is_some (Assoc.get (next_field p.body).0 st.job_waiters.value) in
      let running = is_some (get_assigned_job (next_field p.body).0 worker) in
      let body = status_body (next_field p.body).0 known running in
      let handle = next_field body in
      let known_field = next_field handle.1 in
      let running_field = next_field known_field.1 in
      (handle_get_status svc p st ≡ (ok (new_res Constants.status_res body), st))
      × (handle.0 ≡ (next_field p.body).0)
      × (known_field.0 ≡ flag known)
      × (running_field.0 ≡ flag running)
      × (running_field.1 ≡ codes "0" ++ 0 ∷ codes "0")
unfolding handle_get_status status_body show digits
get_status-answers svc p st worker good e =
    let handle : Bytes = (next_field p.body).0 in
    let known = is_some (Assoc.get handle st.job_waiters.value) in
    let running = is_some (get_assigned_job handle worker) in
    let read =
      three_fields handle (flag known) (flag running) (show 0 ++ 0 ∷ show 0)
        (next_field-Splits p.body).0 (show-HasNo (if known then 1 else 0))
        (show-HasNo (if running then 1 else 0)) in
    (
      rw (with_waiters-open _ st good) (rw (with_worker-open svc.worker _ st _ e refl) refl),
      read.0,
      read.1,
      read.2,
      read.3,
    )
