-- ===== src/Service/Numbered.antt =====
-- The handles that rustygeard/src/service.rs has given out, and those of the stored jobs.
use rustygear.Job
use rustygear.Job.{Arc}
use rustygear.Prelude.{
  ℕ, suc, ◌+◌, ◌%◌, ◌^◌, ◌<◌, ◌≤◌, ◌≡◌, refl, ◌∙◌, inl, inr, Option, none, some, arith, Bytes,
  bytes_eq, nat_eq, Option-cases,
}
use rustygear.Prelude.Assoc
use rustygear.Prelude.Assoc.{Map}
use rustygear.Queues.{
  JobStorage, get_job, remove_job, coalesce_unique, add_job, func_queues, push_back,
}
use rustygear.Queues.Jobs.{add_job-Agrees, remove_job-Agrees, inserted, removed}
use rustygear.Queues.Remotes.{
  Agrees, coalesce_unique-Agrees, coalesce_unique-new, coalesce_unique-known,
}
use rustygear.Service.Answers.{handle_of-inj}
use rustygear.Service.Handlers.{take_job, forget_job}
use rustygear.Service.Keeps.{
  put_worker-keeps, poison_cell-keeps, Stable, Keeps, Keeps-pure, Keeps-own_queues,
  own_queues-keeps, continue-keeps,
}
use rustygear.Service.Secure.{Secure}
use rustygear.Service.State.{
  pure, Server, GearmanService, put_queues, put_worker, fetch_add, allocate, held_by, spawn_send,
}
use rustygear.Service.Submit.{coalesce, new_job, store_job, handle_of}
use rustygear.Worker.{WrappingSet, Worker}

-- Of the first `n` handles: each stored job has one of them.
abbrev pub Given : ℕ → Map Bytes Arc → Type 0
Given n m =
    (u : Bytes) (a : Arc)
    → Assoc.get u m ≡ some a
    → (k : ℕ) × (k < n) × (a.job.handle ≡ handle_of k)

-- With the job count and the count of the allocations: the tables are in step.
abbrev pub Sound : JobStorage → ℕ → ℕ → Type 0
Sound s count allocs = Agrees s × Given count s.jobs × (count ≤ allocs)

-- While fewer than 2 ^ 64 allocations were made, so that the job count has not wrapped.
abbrev pub Numbered : {F : Type 0} → Server F → Type 0
Numbered st = st.next_alloc < 2 ^ 64 → Sound st.queues.value st.job_count st.next_alloc

pub coalesce-jobs :
    (u : Bytes) (r : Option ℕ) (s : JobStorage) → (coalesce_unique u r s).1.jobs ≡ s.jobs
coalesce-jobs u r s = elim (Option-cases (Assoc.get u s.jobs)) [
  | inl e ↦ rw (coalesce_unique-new u r s e) refl
  | inr (a, e) ↦ (coalesce_unique-known u r s a e).1
]

-- What a new job adds to the numbered ones.
add_job-Given :
    (a : Arc) (i : ℕ) (r : Option ℕ) (s : JobStorage) (n : ℕ)
    → a.job.handle ≡ handle_of n
    → Given n s.jobs
    → Given (suc n) (add_job a i r s).1.jobs
unfolding add_job
add_job-Given a i r s n h g u b =
    elim (Option-cases (push_back i a (func_queues a.job.fname s.queues))) [
      | inl e ↦ rw (e, add_job) (λ f. later (g u b f))
      | inr (rs, e) ↦
          rw (e, add_job)
            (λ f. elim (inserted a.job.unique u a b s.jobs f) [
              | inl (at, same) ↦ (n, omega arith, rw (← same) h)
              | inr (apart, old) ↦ later (g u b old)
            ])
    ]
  where
    later :
        (k : ℕ) × (k < n) × (b.job.handle ≡ handle_of k)
        → (k : ℕ) × (k < suc n) × (b.job.handle ≡ handle_of k)
    later (k, l, e) = (k, omega arith, e)

module _ {F : Type 0} where
  pub Numbered-Stable : Stable {F = F} Numbered
  unfolding spawn_send
  Numbered-Stable = record {
    workers = λ ws st h. h;
    waiters = λ m st h. h;
    worker = put_worker-keeps λ m st h. h;
    sent = λ tx p st h. h;
    bad_queues = λ st h. h;
    bad_workers = λ st h. h;
    bad_senders = λ st h. h;
    bad_waiters = λ st h. h;
    bad_conns = λ st h. h;
    bad_cell = poison_cell-keeps λ m st h. h;
  }

  coalesce-Numbered : (u : Bytes) (r : Option ℕ) → Keeps {F = F} Numbered (coalesce u r)
  unfolding coalesce
  coalesce-Numbered u r = Keeps-own_queues Numbered-Stable _ λ st h l.
      let (agrees, given, counted) = h l in
      (
        coalesce_unique-Agrees u r st.queues.value agrees,
        rw (coalesce-jobs u r st.queues.value) given,
        counted,
      )

  store_job-Numbered :
      (a : Arc) (i : ℕ) (r : Option ℕ) (st : Server F)
      → Numbered st
      → Numbered (put_queues (add_job a i r st.queues.value).1 st)
      → Numbered (store_job a i r st).1
  unfolding store_job
  store_job-Numbered a i r st h k =
      own_queues-keeps Numbered-Stable
        (λ s st. let (result, s') = add_job a i r s in (result, put_queues s' st)) st h k

  -- The state in which the job that gets the next handle is stored.
  abbrev numbered : Server F → Server F
  numbered st = record st {
    job_count = (st.job_count + 1) % 2 ^ 64;
    next_alloc = suc st.next_alloc;
  }

  abbrev next_job : Bytes → Bytes → Bytes → Server F → Arc
  next_job f u d st = record { alloc = st.next_alloc; job = Job.new f u d (handle_of st.job_count) }

  numbered-Numbered : (st : Server F) → Numbered st → Numbered (numbered st)
  numbered-Numbered st h l =
      let (agrees, given, counted) = h (omega arith) in
      (agrees, (λ u a e. let (k, small, same) = given u a e in (k, omega arith, same)), omega arith)

  next_job-Numbered :
      (i : ℕ) (r : Option ℕ) (f u d : Bytes) (st : Server F)
      → Numbered st
      → Numbered (put_queues (add_job (next_job f u d st) i r st.queues.value).1 (numbered st))
  unfolding Job.new
  next_job-Numbered i r f u d st h l =
      let (agrees, given, counted) = h (omega arith) in
      let wraps : (st.job_count + 1) % 2 ^ 64 ≡ suc st.job_count = omega arith in
      (
        add_job-Agrees (next_job f u d st) i r st.queues.value
            (λ t b e same.
              let (k, small, other) = given t b e in
              let met : st.job_count ≡ k = handle_of-inj st.job_count k (same ∙ other) in
              absurd (omega arith))
            agrees,
        rw wraps (add_job-Given (next_job f u d st) i r st.queues.value st.job_count refl given),
        omega arith,
      )

  new_job-Numbered :
      (i : ℕ) (r : Option ℕ) (f u d : Bytes) → Keeps {F = F} Numbered (new_job i r f u d)
  unfolding new_job fetch_add allocate
  new_job-Numbered i r f u d = record {
    kept = λ st h.
        continue-keeps {B = Bytes} {P = Numbered} (store_job (next_job f u d st) i r (numbered st))
          (λ a. pure (handle_of st.job_count))
          (store_job-Numbered (next_job f u d st) i r (numbered st) (numbered-Numbered st h)
            (next_job-Numbered i r f u d st h))
          λ a. Keeps-pure _;
  }

  forget_job-Numbered : (o : Option Arc) → Keeps {F = F} Numbered (forget_job o)
  unfolding forget_job
  forget_job-Numbered none = Keeps-pure tt
  forget_job-Numbered (some a) = Keeps-own_queues Numbered-Stable _ λ st h l.
      let (agrees, given, counted) = h l in
      (
        remove_job-Agrees a.job.unique st.queues.value agrees,
        unfold remove_job in λ u b e. given u b (removed a.job.unique u b st.queues.value.jobs e).1,
        counted,
      )

module _ {F : Type 0} ⦃w : WrappingSet F⦄ where
  take_job-Numbered :
      (svc : GearmanService) (k : Worker F) → Keeps {F = F} Numbered (take_job svc k)
  unfolding take_job get_job
  take_job-Numbered svc k = Keeps-own_queues Numbered-Stable _ λ st h.
      let r = get_job (held_by st.cells) k st.queues.value in
      let kept : Numbered (put_queues r.2 st) = λ l.
        let (agrees, given, counted) = h l in
        (
          record { keyed = agrees.keyed; handles = agrees.handles; remotes = agrees.remotes },
          given,
          counted,
        ) in
      elim (Option-cases (Assoc.get svc.worker st.cells)) [
        | inl e ↦ rw (e, put_worker) kept
        | inr (c, e) ↦ rw (e, put_worker) kept
      ]

  pub Numbered-Secure : Secure {F = F} Numbered
  Numbered-Secure = record {
    stable = Numbered-Stable;
    coalesced = coalesce-Numbered;
    stored = new_job-Numbered;
    taken = take_job-Numbered;
    removed = forget_job-Numbered;
  }
