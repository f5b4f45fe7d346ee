-- ===== src/Client/Submission.antt =====
-- From `submit` of rustygear/src/client.rs to the job that rustygeard/src/service.rs makes of it.
use rustygear.Client.Ready.{Ready, sending, send_packet-Ready, first_conn-Ready}
use rustygear.Client.Requests.{direct_submit, submission_body}
use rustygear.Codec.{Word}
use rustygear.Codec.RoundTrip.{Frames, IsWire, Readable, decode-encode}
use rustygear.Client.State.{Client}
use rustygear.Job
use rustygear.Outcome.{ok}
use rustygear.Packet.{Packet, new_req}
use rustygear.Packet.Fields.{HasNo, next_field-append}
use rustygear.Prelude.{
  Bool, true, false, ◌<◌, ◌^◌, inl, arith, length, ◌++◌, ◌∷◌, ℕ, ◌≡◌, refl, Bytes, nat_eq, bytes_eq,
  bytes_beq_iff, ◌∙◌, some, none,
}
use rustygear.Service.Created.{Healthy, job_of, fname_of, unique_of, payload_of}
use rustygear.Service.State.{Server, GearmanService}
use rustygear.Service.Submit.{handle_of, handle_submit_job, job_created}
use rustygear.Service.Begun.{handle_submit_job_new}
use rustygear.Queues.{func_queues}
use rustygear.Prelude.Assoc

pub three_parts :
    (t : ℕ) (function unique payload : Bytes)
    → HasNo 0 function
    → HasNo 0 unique
    → let p = new_req t (submission_body function unique payload) in
      (fname_of p ≡ function) × (unique_of p ≡ unique) × (payload_of p ≡ payload)
unfolding submission_body new_req
three_parts t function unique payload hf hu =
    rw (next_field-append function (unique ++ 0 ∷ payload) hf, fname_of, unique_of, payload_of)
      (rw (next_field-append unique payload hu) (refl, refl, refl))

module _ {F : Type 0} where
  -- The packet that is sent, and the job that the server makes of it.
  pub direct_submit-job :
      (t conn tx : ℕ) (function unique payload : Bytes) (st : Client) (sv : Server F)
      → Ready conn tx st
      → HasNo 0 function
      → HasNo 0 unique
      → let p = new_req t (submission_body function unique payload) in
        (direct_submit t function unique payload st ≡ (ok tt, sending tx p st))
        × (job_of p sv ≡ record {
          alloc = sv.next_alloc;
          job = Job.new function unique payload (handle_of sv.job_count);
        })
  unfolding direct_submit
  direct_submit-job t conn tx function unique payload st sv r hf hu =
      let (f, u, d) = three_parts t function unique payload hf hu in
      (rw (first_conn-Ready conn tx st r) (send_packet-Ready conn tx _ st r), rw (f, u, d) refl)

  -- The job that the server stores for the packet.
  handle_submit_job-submission_body :
      (t i : ℕ) (wait : Bool) (svc : GearmanService) (function unique payload : Bytes)
      (sv : Server F)
      → HasNo 0 function
      → HasNo 0 unique
      → Healthy sv
      → Assoc.get unique sv.queues.value.jobs ≡ none
      → i < length (func_queues function sv.queues.value.queues)
      → let p = new_req t (submission_body function unique payload) in
        let (answer, after) = handle_submit_job svc i wait p sv in
        (answer ≡ ok (job_created (handle_of sv.job_count)))
        × (Assoc.get unique after.queues.value.jobs
            ≡ some (record {
              alloc = sv.next_alloc;
              job = record {
                handle = handle_of sv.job_count;
                fname = function;
                unique = unique;
                payload = payload;
              };
            }))
  handle_submit_job-submission_body t i wait svc function unique payload sv hf hu good new fits =
      let p = new_req t (submission_body function unique payload) in
      let (f, u, d) = three_parts t function unique payload hf hu in
      let made =
        handle_submit_job_new svc i wait p sv function unique (handle_of sv.job_count) 0 0 good
          (rw u new) (rw f fits) in
      (made.0, made.1 ∙ rw (u, (bytes_beq_iff unique unique).1 refl, f, d) refl)

known_type : (debug : Bool) (p : Packet) → p.ptype < 43 → Readable debug p
known_type false p l = refl
known_type true p l = ground arith

new_req-IsWire : (t : ℕ) (d : Bytes) → t < 2 ^ 32 → length d < 2 ^ 32 → IsWire (new_req t d)
unfolding new_req
new_req-IsWire t d l n = record {
  magic = inl refl;
  ptype = l;
  psize = omega arith;
  sized = omega arith;
}

module _ {F : Type 0} ⦃w : Word⦄ where
  -- On a client with a connection, a submission with a packet type below 43, of a function and a
  -- unique id without nulls whose body has less than 2 ^ 32 bytes, sends one packet of that type;
  -- the bytes that `encode` appends for it are decoded into the same packet, with debug logging on
  -- or off; and when the server handles that packet as a submission of any priority in range (no
  -- mutex that it takes poisoned, the unique id new), it answers JOB_CREATED with the handle of the
  -- job count and stores under the unique id a job with this handle, this function, this unique id
  -- and the whole payload.
  pub direct_submit-Frames :
      (debug : Bool) (t conn tx i : ℕ) (wait : Bool) (svc : GearmanService)
      (function unique payload : Bytes) (st : Client) (sv : Server F)
      → Ready conn tx st
      → HasNo 0 function
      → HasNo 0 unique
      → t < 43
      → length (submission_body function unique payload) < 2 ^ 32
      → Healthy sv
      → Assoc.get unique sv.queues.value.jobs ≡ none
      → i < length (func_queues function sv.queues.value.queues)
      → (p : Packet) × (frame : Bytes) × (direct_submit t function unique payload st
          ≡ (ok tt, sending tx p st))
        × Frames debug p frame
        × (p.ptype ≡ t)
        × ((handle_submit_job svc i wait p sv).0 ≡ ok (job_created (handle_of sv.job_count)))
        × (Assoc.get unique (handle_submit_job svc i wait p sv).1.queues.value.jobs
            ≡ some (record {
              alloc = sv.next_alloc;
              job = record {
                handle = handle_of sv.job_count;
                fname = function;
                unique = unique;
                payload = payload;
              };
            }))
  unfolding new_req
  direct_submit-Frames debug t conn tx i wait svc function unique payload st sv r hf hu l n good new
        fits =
      let p = new_req t (submission_body function unique payload) in
      let (sent, _) = direct_submit-job t conn tx function unique payload st sv r hf hu in
      let (answer, stored) =
        handle_submit_job-submission_body t i wait svc function unique payload sv hf hu good new
          fits in
      let (frame, wire) =
        decode-encode debug p
          (new_req-IsWire t (submission_body function unique payload) (omega arith) n)
          (known_type debug p l) in
      (p, frame, sent, wire, refl, answer, stored)
