-- ===== src/Queues/Jobs.antt =====
-- How jobs enter and leave the storage of rustygeard/src/queues.rs, and what stays in step.
use rustygear.Job.{Arc}
use rustygear.Outcome.{ok}
use rustygear.Prelude.{
  [], ◌∷◌, length, zero, suc, ◌<◌, ◌++◌, arith, ℕ, ◌≡◌, ◌≢◌, refl, sym, ◌∙◌, ◌⊎◌, inl, inr, false,
  Option, none, some, List, arith, Bytes, bytes_eq, nat_eq, bytes_beq_iff, ◌==◌, Bool-cases,
  Option-cases,
}
use rustygear.Prelude.Assoc
use rustygear.Prelude.Assoc.{Map, get-insert, get-remove}
use rustygear.Prelude.Finite
use rustygear.Queues.{JobStorage, remove_job, add_job, first_remotes, push_back, func_queues}
use rustygear.Queues.Remotes.{Agrees, Matched, beq_false}

-- The jobs after an insertion: the new one, or one that was there under another id.
pub inserted :
    (k t : Bytes) (a b : Arc) (m : Map Bytes Arc)
    → Assoc.get t (Assoc.insert k a m) ≡ some b
    → ((k ≡ t) × (a ≡ b)) ⊎ (((k == t) ≡ false) × (Assoc.get t m ≡ some b))
inserted k t a b m f = elim (Bool-cases (k == t)) [
  | inl e ↦ inl ((bytes_beq_iff k t).0 e, ground (arith, get-insert k t a m))
  | inr e ↦ inr (e, ground (arith, get-insert k t a m))
]

-- The jobs after a removal.
pub removed :
    (k t : Bytes) (b : Arc) (m : Map Bytes Arc)
    → Assoc.get t (Assoc.remove k m) ≡ some b
    → ((k == t) ≡ false) × (Assoc.get t m ≡ some b)
removed k t b m f = ground (arith, get-remove k t m)

Matched-first :
    (remote : Option ℕ) → Matched (some (first_remotes remote)) (some (first_remotes remote))
unfolding Finite.contains
Matched-first none = ((λ r. refl), refl)
Matched-first (some r) = ((λ q. refl), refl)

-- The state that `add_job` leaves when the priority is one of the three.
abbrev added : Arc → Option ℕ → List (List Arc) → JobStorage → JobStorage
added a remote rs s = record {
  jobs = Assoc.insert a.job.unique a s.jobs;
  queues = Assoc.insert a.job.fname rs s.queues;
  remotes_by_unique = Assoc.insert a.job.unique (first_remotes remote) s.remotes_by_unique;
  remotes_by_handle = Assoc.insert a.job.handle (first_remotes remote) s.remotes_by_handle;
}

module _ (a : Arc) (remote : Option ℕ) (rs : List (List Arc)) (s : JobStorage)
    (fresh : (t : Bytes) (b : Arc) → Assoc.get t s.jobs ≡ some b → a.job.handle ≢ b.job.handle)
    (v : Agrees s) where
  added-keyed :
      (t : Bytes) (b : Arc) → Assoc.get t (added a remote rs s).jobs ≡ some b → b.job.unique ≡ t
  added-keyed t b f = elim (inserted a.job.unique t a b s.jobs f) [
    | inl (e, same) ↦ rw (← same) e
    | inr (e, old) ↦ v.keyed t b old
  ]

  added-handles :
      (t u : Bytes) (b c : Arc)
      → Assoc.get t (added a remote rs s).jobs ≡ some b
      → Assoc.get u (added a remote rs s).jobs ≡ some c
      → b.job.handle ≡ c.job.handle
      → t ≡ u
  added-handles t u b c f g h = elim (inserted a.job.unique t a b s.jobs f) [
    | inl (e, same) ↦ elim (inserted a.job.unique u a c s.jobs g) [
      | inl (e', same') ↦ sym e ∙ e'
      | inr (e', old') ↦ absurd (fresh u c old' (cc (same, h)))
    ]
    | inr (e, old) ↦ elim (inserted a.job.unique u a c s.jobs g) [
      | inl (e', same') ↦ absurd (fresh t b old (cc (same', h)))
      | inr (e', old') ↦ v.handles t u b c old old' h
    ]
  ]

  added-remotes :
      (t : Bytes) (b : Arc)
      → Assoc.get t (added a remote rs s).jobs ≡ some b
      → Matched
          (Assoc.get t (added a remote rs s).remotes_by_unique)
          (Assoc.get b.job.handle (added a remote rs s).remotes_by_handle)
  added-remotes t b f =
      rw
        (
          get-insert a.job.unique t _ s.remotes_by_unique,
          get-insert a.job.handle b.job.handle _ s.remotes_by_handle,
        )
        (elim (inserted a.job.unique t a b s.jobs f) [
          | inl (e, same) ↦
              rw
                (
                  (bytes_beq_iff a.job.unique t).1 e,
                  (bytes_beq_iff a.job.handle b.job.handle).1 (cc same),
                )
                (Matched-first remote)
          | inr (e, old) ↦
              rw (e, beq_false a.job.handle b.job.handle (fresh t b old)) (v.remotes t b old)
        ])

-- Adding a job whose handle no stored job has keeps the tables of the storage in step, whatever its
-- unique id, its priority and the connection that waits.
pub add_job-Agrees :
    (a : Arc) (priority : ℕ) (remote : Option ℕ) (s : JobStorage)
    → ((t : Bytes) (b : Arc) → Assoc.get t s.jobs ≡ some b → a.job.handle ≢ b.job.handle)
    → Agrees s
    → Agrees (add_job a priority remote s).1
unfolding add_job
add_job-Agrees a priority remote s fresh v =
    elim (Option-cases (push_back priority a (func_queues a.job.fname s.queues))) [
      | inl e ↦
          rw (e, add_job) (record { keyed = v.keyed; handles = v.handles; remotes = v.remotes })
      | inr (rs, e) ↦
          rw (e, add_job)
            (record {
              keyed = added-keyed a remote rs s fresh v;
              handles = added-handles a remote rs s fresh v;
              remotes = added-remotes a remote rs s fresh v;
            })
    ]

-- Removing a job, there or not, keeps the tables of the storage in step.
pub remove_job-Agrees : (u : Bytes) (s : JobStorage) → Agrees s → Agrees (remove_job u s)
unfolding remove_job
remove_job-Agrees u s v = record {
  keyed = λ t b f. v.keyed t b (removed u t b s.jobs f).1;
  handles =
      λ t q b c f g h. v.handles t q b c (removed u t b s.jobs f).1 (removed u q c s.jobs g).1 h;
  remotes = λ t b f. remotes_left t b (removed u t b s.jobs f);
}
  where
    remotes_left :
        (t : Bytes) (b : Arc)
        → ((u == t) ≡ false) × (Assoc.get t s.jobs ≡ some b)
        → Matched
            (Assoc.get t (remove_job u s).remotes_by_unique)
            (Assoc.get b.job.handle (remove_job u s).remotes_by_handle)
    remotes_left t b (apart, f) =
        rw (get-remove u t s.remotes_by_unique, apart)
          (elim (Option-cases (Assoc.get u s.jobs)) [
            | inl e ↦ rw (e, remove_job) (v.remotes t b f)
            | inr (a, e) ↦
                let differ : a.job.handle ≢ b.job.handle =
                  λ h. cc (apart, (bytes_beq_iff u t).1 (v.handles u t a b e f h)) in
                rw (e, remove_job)
                  (rw
                    (get-remove a.job.handle b.job.handle s.remotes_by_handle, beq_false _ _ differ)
                    (v.remotes t b f))
          ])

pub push_back-some :
    (i : ℕ) (a : Arc) (qs : List (List Arc))
    → i < length qs
    → (rs : List (List Arc)) × (push_back i a qs ≡ some rs)
unfolding push_back
push_back-some i a [] h = absurd (omega arith)
push_back-some zero a (q ∷ qs) h = ((q ++ a ∷ []) ∷ qs, refl)
push_back-some (suc i) a (q ∷ qs) h =
    let (rs, e) = push_back-some i a qs (omega arith) in (q ∷ rs, rw (e, push_back))

-- With a priority in range the job is stored.
pub add_job-ok :
    (a : Arc) (i : ℕ) (remote : Option ℕ) (s : JobStorage)
    → i < length (func_queues a.job.fname s.queues)
    → ((add_job a i remote s).0 ≡ ok tt)
      × (Assoc.get a.job.unique (add_job a i remote s).1.jobs ≡ some a)
unfolding add_job
add_job-ok a i remote s h =
    let (rs, e) = push_back-some i a (func_queues a.job.fname s.queues) h in
    rw (e, add_job)
      (refl, rw (get-insert a.job.unique a.job.unique a s.jobs, (bytes_beq_iff _ _).1 refl))
