-- ===== src/Threads/Tickets/Draws.antt =====
-- The steps that draw a job number and that change the storage, in rustygeard/src/service.rs.
use native.Mathlib.Decide.{dec_lt}
use rustygear.Job.{Arc}
use rustygear.Prelude.{
  ℕ, suc, ◌+◌, ◌%◌, ◌<◌, ◌^◌, ◌≡◌, ◌≢◌, sym, ◌∙◌, ◌⊎◌, inl, inr, Option, none, some, arith, Bytes,
  bytes_eq, nat_eq, nat_beq_iff, Option-cases,
}
use rustygear.Prelude.Assoc
use rustygear.Queues.{
  JobStorage, get_job, push_back, coalesce_unique, remove_job, add_job, func_queues,
}
use rustygear.Queues.Jobs.{add_job-Agrees, remove_job-Agrees, inserted, removed}
use rustygear.Queues.Remotes.{coalesce_unique-Agrees, Agrees}
use rustygear.Service.Answers.{handle_of-inj}
use rustygear.Service.Numbered.{coalesce-jobs}
use rustygear.Service.State.{Server, held_by, put_worker, fetch_add, put_queues}
use rustygear.Service.Submit.{handle_of}
use rustygear.Worker.{WrappingSet, Worker}
use rustygear.Threads.Tickets.{drawn, Fine-less, Fine, Moves}

module _ {F : Type 0} (st : Server F) where
  pub fetch-Moves : Moves none st (fetch_add st).1 (some st.job_count)
  unfolding fetch_add
  fetch-Moves others n l f =
      let wraps : (st.job_count + 1) % 2 ^ 64 ≡ suc st.job_count = omega (arith, f.counted) in
      let fresh : others st.job_count ≡ 0 = elim (dec_lt 0 (others st.job_count)) [
        | yes p ↦ absurd (omega (arith, f.below st.job_count (omega arith)))
        | no p ↦ omega arith
      ] in
      record {
        agrees = f.agrees;
        given = λ u a e.
            let (k, small, same, unused) = f.given u a e in
            (k, omega (arith, wraps), same, ground (arith, nat_beq_iff st.job_count k));
        once = λ k. ground (arith, nat_beq_iff st.job_count k, f.once k, fresh);
        below = λ k o. ground (arith, nat_beq_iff st.job_count k, f.below k, wraps);
        counted = omega (arith, f.counted, wraps);
      }

  -- A change of the storage after which each stored job was stored before.
  pub storage-Moves :
      (s : JobStorage)
      → (Agrees st.queues.value → Agrees s)
      → ((u : Bytes) (a : Arc)
          → Assoc.get u s.jobs ≡ some a
          → Assoc.get u st.queues.value.jobs ≡ some a)
      → Moves none st (put_queues s st) none
  storage-Moves s h k others n l f = record {
    agrees = h f.agrees;
    given = λ u a e. f.given u a (k u a e);
    once = f.once;
    below = f.below;
    counted = omega (arith, f.counted);
  }

-- What is stored after `add_job` is the new job or was stored before.
add_job-stored :
    (a : Arc) (i : ℕ) (r : Option ℕ) (s : JobStorage) (u : Bytes) (b : Arc)
    → Assoc.get u (add_job a i r s).1.jobs ≡ some b
    → (a ≡ b) ⊎ (Assoc.get u s.jobs ≡ some b)
unfolding add_job
add_job-stored a i r s u b =
    elim (Option-cases (push_back i a (func_queues a.job.fname s.queues))) [
      | inl e ↦ rw (e, add_job) (λ g. inr g)
      | inr (rs, e) ↦
          rw (e, add_job)
            (λ g. elim (inserted a.job.unique u a b s.jobs g) [
              | inl (at, same) ↦ inl same
              | inr (apart, old) ↦ inr old
            ])
    ]

-- The job that is stored has the handle of the number that was drawn.
module _ {F : Type 0} (st : Server F) (a : Arc) (i : ℕ) (r : Option ℕ) (j : ℕ)
    (h : a.job.handle ≡ handle_of j) where
  module _ (others : ℕ → ℕ) (n : ℕ) (f : Fine (λ k. others k + drawn (some j) k) n st) where
    abbrev Stored : Bytes → Arc → Type 0
    Stored u b = (k : ℕ) × (k < st.job_count) × (b.job.handle ≡ handle_of k) × (others k + 0 ≡ 0)

    Stored-new : (u : Bytes) (b : Arc) → a ≡ b → Stored u b
    Stored-new u b e = (
      j,
      ground (arith, f.below j, nat_beq_iff j j),
      rw (← e) h,
      ground (arith, f.once j, nat_beq_iff j j),
    )

    Stored-old : (u : Bytes) (b : Arc) → Assoc.get u st.queues.value.jobs ≡ some b → Stored u b
    Stored-old u b e = let (k, small, same, free) = f.given u b e in (k, small, same, omega arith)

    apart :
        (u : Bytes) (b : Arc)
        → Assoc.get u st.queues.value.jobs ≡ some b
        → a.job.handle ≢ b.job.handle
    apart u b e same =
        let (k, small, other, free) = f.given u b e in
        let met : j ≡ k = handle_of-inj j k (sym h ∙ same ∙ other) in
        absurd (ground (arith, nat_beq_iff j k))

  pub store-Moves : Moves (some j) st (put_queues (add_job a i r st.queues.value).1 st) none
  store-Moves others n l f =
      let before =
        Fine-less (λ k. others k + drawn (some j) k) (λ k. others k + 0) n (suc n) st
          (λ k. omega arith) (omega arith) f in
      record {
        agrees = add_job-Agrees a i r st.queues.value (apart others n f) f.agrees;
        given = λ u b g. elim (add_job-stored a i r st.queues.value u b g) [
          | inl new ↦ Stored-new others n f u b new
          | inr old ↦ Stored-old others n f u b old
        ];
        once = before.once;
        below = before.below;
        counted = before.counted;
      }

module _ {F : Type 0} (st : Server F) where
  pub coalesce-Moves :
      (u : Bytes) (r : Option ℕ)
      → Moves none st (put_queues (coalesce_unique u r st.queues.value).1 st) none
  coalesce-Moves u r =
      storage-Moves st (coalesce_unique u r st.queues.value).1
        (coalesce_unique-Agrees u r st.queues.value)
        (λ t a e. rw (← coalesce-jobs u r st.queues.value) e)

  pub remove-Moves : (u : Bytes) → Moves none st (put_queues (remove_job u st.queues.value) st) none
  unfolding remove_job
  remove-Moves u =
      storage-Moves st (remove_job u st.queues.value) (remove_job-Agrees u st.queues.value)
        (λ t a e. (removed u t a st.queues.value.jobs e).1)

module _ {F : Type 0} ⦃w : WrappingSet F⦄ where
  pub take-Moves :
      (st : Server F) (k : ℕ) (worker : Worker F)
      → let r = get_job (held_by st.cells) worker st.queues.value in
        Moves none st (put_queues r.2 (put_worker k r.1 st)) none
  unfolding get_job
  take-Moves st k worker =
      let r = get_job (held_by st.cells) worker st.queues.value in
      let same : Moves none st (put_queues r.2 st) none =
        storage-Moves st r.2
          (λ v. record { keyed = v.keyed; handles = v.handles; remotes = v.remotes })
          (λ u a e. e) in
      elim (Option-cases (Assoc.get k st.cells)) [
        | inl e ↦ rw (e, put_worker) same
        | inr (c, e) ↦
            rw (e, put_worker)
              (λ others n l f.
                let m = same others n l f in
                record {
                  agrees = m.agrees;
                  given = m.given;
                  once = m.once;
                  below = m.below;
                  counted = m.counted;
                })
      ]
