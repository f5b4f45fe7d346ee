-- ===== src/Client/Status.antt =====
-- From GET_STATUS to the `JobStatus` of rustygear/src/client.rs, through the answer of
-- rustygeard/src/service.rs.
use rustygear.Constants
use rustygear.Client.Handlers.{call, handle_status_res, parse_or_panic, waiting_field, u32_bound}
use rustygear.Client.State.{JobStatus, ClientHandler, Client}
use rustygear.Outcome.{ok}
use rustygear.Packet.{Packet, new_req, new_res, no_response, next_field, bytes2bool}
use rustygear.Packet.Fields.{HasNo, next_field-append, next_field-HasNo}
use rustygear.Prelude.{
  ℕ, ◌<◌, ◌≡◌, refl, ap, Bool, true, false, some, ◌∷◌, ◌++◌, [], arith, Bytes, nat_eq, bytes_eq,
}
use rustygear.Prelude.Assoc
use rustygear.Mutex.{unlocked}
use rustygear.Service.Answers.{get_status-answers}
use rustygear.Service.Handlers.{flag, is_some, status_body, handle_get_status}
use rustygear.Service.State.{Server, GearmanService}
use rustygear.Text.Decimal.{digits, show, show-HasNo}
use rustygear.Text.Number.{parse_field-show}
use rustygear.Worker.{Worker, get_assigned_job}

pub parse_or_panic-show :
    (bound n : ℕ) (st : Client) → n < bound → parse_or_panic bound (show n) st ≡ (ok n, st)
unfolding parse_or_panic
parse_or_panic-show bound n st h = rw (parse_field-show bound n h, parse_or_panic) refl

flag_read : (b : Bool) → bytes2bool (flag b) ≡ b
unfolding bytes2bool show digits
flag_read true = refl
flag_read false = refl

flag-HasNo : (b : Bool) → HasNo 0 (flag b)
flag-HasNo true = show-HasNo 1
flag-HasNo false = show-HasNo 0

-- The answer is read into the handle and the two flags that it was made of.
handle_status_res-status_body :
    (h : Bytes) (known running : Bool) (st : Client)
    → HasNo 0 h
    → handle_status_res (new_res Constants.status_res (status_body h known running)) st ≡ (
      ok no_response,
      record st {
        status_res =
            st.status_res
            ++ (record {
              handle = h;
              known = known;
              running = running;
              numerator = 0;
              denominator = 0;
              waiting = 0;
            })
              ∷ [];
      },
    )
unfolding handle_status_res status_body new_res waiting_field
handle_status_res-status_body h known running st hh = rw (next_field-append h _ hh) (
    rw (next_field-append (flag known) _ (flag-HasNo known)) (
      rw (next_field-append (flag running) _ (flag-HasNo running)) (
        rw (next_field-append (show 0) (show 0) (show-HasNo 0)) (
          rw (next_field-HasNo (show 0) (show-HasNo 0)) (
            rw (parse_or_panic-show u32_bound 0 st (omega arith)) (
              rw (parse_or_panic-show u32_bound 0 st (omega arith))
                (rw (flag_read known, flag_read running) refl)))))))

module _ {F : Type 0} where
  -- The answer of the server to GET_STATUS for a handle without nulls (waiters and worker not
  -- poisoned) is read by the client into a `JobStatus` with that handle, whether the table of
  -- waiters has an entry for the handle (an empty one also counts), whether the worker of the
  -- asking connection has the job, and zeros.
  pub get_status-JobStatus :
      (svc : GearmanService) (sv : Server F) (worker : Worker F) (handle : Bytes)
      (reader : ClientHandler) (st : Client)
      → HasNo 0 handle
      → sv.job_waiters.poisoned ≡ false
      → Assoc.get svc.worker sv.cells ≡ some (unlocked worker)
      → let asked = handle_get_status svc (new_req Constants.get_status handle) sv in
        let js : JobStatus = record {
          handle = handle;
          known = is_some (Assoc.get handle sv.job_waiters.value);
          running = is_some (get_assigned_job handle worker);
          numerator = 0;
          denominator = 0;
          waiting = 0;
        } in
        (answer : Packet) × (asked ≡ (ok answer, sv))
        × (call reader answer st
            ≡ (ok no_response, record st { status_res = st.status_res ++ js ∷ [] }))
  unfolding call new_req new_res
  get_status-JobStatus svc sv worker handle reader st hh good e =
      let answered =
        get_status-answers svc (new_req Constants.get_status handle) sv worker good e in
      let same : (next_field handle).0 ≡ handle =
        ap (λ (r : Bytes × Bytes). r.0) (next_field-HasNo handle hh) in
      let known = is_some (Assoc.get handle sv.job_waiters.value) in
      let running = is_some (get_assigned_job handle worker) in
      (
        new_res Constants.status_res (status_body handle known running),
        rw answered.0 (rw same refl),
        handle_status_res-status_body handle known running st hh,
      )
