-- ===== src/Queues/Remotes.antt =====
-- The two tables of waiting connections in rustygeard/src/queues.rs: the set by unique id and the
-- vector by handle, and how the operations on jobs keep them in step.
use rustygear.Job.{Arc}
use rustygear.Prelude.{
  ℕ, ◌≡◌, ◌≢◌, refl, sym, ◌∙◌, inl, inr, Bool, true, false, ◌&&◌, not, Option, none, some, List, [],
  ◌∷◌, ◌++◌, arith, Bytes, bytes_eq, nat_eq, bytes_beq_iff, nat_beq_iff, ◌==◌, if◌then◌else◌,
  Bool-cases, Option-cases,
}
use rustygear.Prelude.Assoc
use rustygear.Prelude.Assoc.{Map, get-insert, get-remove}
use rustygear.Prelude.Finite
use rustygear.Prelude.Finite.{contains-append, contains-insert}
use rustygear.Queues.{JobStorage, add_remote, insert_remote, push_remote, coalesce_unique}

abbrev pub distinct : List ℕ → Bool
distinct [] = true
distinct (x ∷ xs) = not (Finite.contains x xs) && distinct xs

-- The set and the vector of one job: both are there, with the same connections, and the vector
-- names none twice.
abbrev pub Matched : Option (List ℕ) → Option (List ℕ) → Type 0
Matched (some xs) (some ys) =
    ((r : ℕ) → Finite.contains r xs ≡ Finite.contains r ys) × (distinct ys ≡ true)
Matched _ _ = ⊥

-- Each job stands under its unique id, no two jobs share a handle, and the two entries of each job
-- match.
pub record Agrees (s : JobStorage) : Type 0 where
  pub keyed : (u : Bytes) (a : Arc) → Assoc.get u s.jobs ≡ some a → a.job.unique ≡ u
  pub handles :
      (u v : Bytes) (a b : Arc)
      → Assoc.get u s.jobs ≡ some a
      → Assoc.get v s.jobs ≡ some b
      → a.job.handle ≡ b.job.handle
      → u ≡ v
  pub remotes :
      (u : Bytes) (a : Arc)
      → Assoc.get u s.jobs ≡ some a
      → Matched (Assoc.get u s.remotes_by_unique) (Assoc.get a.job.handle s.remotes_by_handle)

distinct-snoc :
    (r : ℕ) (xs : List ℕ)
    → distinct xs ≡ true
    → Finite.contains r xs ≡ false
    → distinct (xs ++ r ∷ []) ≡ true
unfolding Finite.contains
distinct-snoc r [] h k = refl
distinct-snoc r (x ∷ xs) h k =
    ground
      (arith, contains-append x xs (r ∷ []), distinct-snoc r xs, nat_beq_iff r x, nat_beq_iff x r)

pub Matched-add :
    (r : ℕ) (xs ys : List ℕ)
    → Matched (some xs) (some ys)
    → Matched
        (some (Finite.insert r xs))
        (some (if not (Finite.contains r xs) then ys ++ r ∷ [] else ys))
unfolding Finite.contains
Matched-add r xs ys (same, once) = elim (Bool-cases (Finite.contains r xs)) [
  | inl e ↦
      rw e ((λ q. ground (arith, contains-insert r q xs, same q, same r, nat_beq_iff r q)), once)
  | inr e ↦ rw e (
    (λ q. ground (arith, contains-insert r q xs, contains-append q ys (r ∷ []), same q)),
    distinct-snoc r ys once (sym (same r) ∙ e),
  )
]

pub Matched-cases :
    (o p : Option (List ℕ))
    → Matched o p
    → (xs : List ℕ) × (ys : List ℕ) × (o ≡ some xs) × (p ≡ some ys) × Matched (some xs) (some ys)
Matched-cases (some xs) (some ys) m = (xs, ys, refl, refl, m)
Matched-cases (some xs) none m = absurd m
Matched-cases none p m = absurd m

-- The entries after a connection was added to those of one job.
module _ (r : ℕ) where
  pub get-insert_remote :
      (u v : Bytes) (xs : List ℕ) (m : Map Bytes (List ℕ))
      → Assoc.get u m ≡ some xs
      → Assoc.get v (insert_remote (some r) u m)
        ≡ (if u == v then some (Finite.insert r xs) else Assoc.get v m)
  unfolding insert_remote
  get-insert_remote u v xs m e = rw (e, insert_remote) (get-insert u v (Finite.insert r xs) m)

  pub get-push_remote :
      (h k : Bytes) (ys : List ℕ) (add : Bool) (m : Map Bytes (List ℕ))
      → Assoc.get h m ≡ some ys
      → Assoc.get k (if add then push_remote (some r) h m else m)
        ≡ (if h == k then some (if add then ys ++ r ∷ [] else ys) else Assoc.get k m)
  unfolding push_remote
  get-push_remote h k ys true m e = rw (e, push_remote) (get-insert h k (ys ++ r ∷ []) m)
  get-push_remote h k ys false m e = ground (arith, bytes_beq_iff h k)

pub beq_false : (a b : Bytes) → a ≢ b → (a == b) ≡ false
beq_false a b h = elim (Bool-cases (a == b)) [
  | inl e ↦ absurd (h ((bytes_beq_iff a b).0 e))
  | inr e ↦ e
]

-- `coalesce_unique` with a connection to add, on a job that is there.
module _ (u : Bytes) (r : ℕ) (a : Arc) (s : JobStorage) (here : Assoc.get u s.jobs ≡ some a) where
  -- The entries of every job, at the state that the call leaves.
  coalesced :
      (xs ys : List ℕ)
      → Agrees s
      → Matched (some xs) (some ys)
      → (t : Bytes) (b : Arc) → Assoc.get t s.jobs ≡ some b
      → Matched (if u == t then some (Finite.insert r xs) else Assoc.get t s.remotes_by_unique) (
          if a.job.handle == b.job.handle
          then some (if not (Finite.contains r xs) then ys ++ r ∷ [] else ys)
          else Assoc.get b.job.handle s.remotes_by_handle)
  coalesced xs ys v m t b f = elim (Bool-cases (u == t)) [
    | inl same ↦
        let at_u : Assoc.get u s.jobs ≡ some b = rw (← (bytes_beq_iff u t).0 same) at f in
        let handle : a.job.handle ≡ b.job.handle = cc (here, at_u) in
        rw (same, (bytes_beq_iff a.job.handle b.job.handle).1 handle) (Matched-add r xs ys m)
    | inr differ ↦
        let apart : a.job.handle ≢ b.job.handle =
          λ h. cc (differ, (bytes_beq_iff u t).1 (v.handles u t a b here f h)) in
        rw (differ, beq_false a.job.handle b.job.handle apart) (v.remotes t b f)
  ]

  coalesce_some-Agrees : Agrees s → Agrees (coalesce_unique u (some r) s).1
  unfolding coalesce_unique
  coalesce_some-Agrees v =
      let (xs, ys, ex, ey, m) = Matched-cases _ _ (v.remotes u a here) in
      rw (here, coalesce_unique)
        (record {
          keyed = v.keyed;
          handles = v.handles;
          remotes = λ t b f.
              rw (ex, get-insert_remote r u t xs s.remotes_by_unique ex)
                (rw
                  (get-push_remote r a.job.handle b.job.handle ys (add_remote (some r) (some xs))
                    s.remotes_by_handle ey)
                  (unfold add_remote in coalesced xs ys v m t b f));
        })

-- Coalescing keeps the tables of a storage in step (each job under its unique id, no handle twice,
-- the set and the vector of remotes of each job with the same connections and none twice).
pub coalesce_unique-Agrees :
    (u : Bytes) (remote : Option ℕ) (s : JobStorage)
    → Agrees s
    → Agrees (coalesce_unique u remote s).1
unfolding coalesce_unique add_remote insert_remote
coalesce_unique-Agrees u none s v = elim (Option-cases (Assoc.get u s.jobs)) [
  | inl e ↦ rw (e, coalesce_unique) v
  | inr (a, e) ↦ rw (e, coalesce_unique) v
]
coalesce_unique-Agrees u (some r) s v = elim (Option-cases (Assoc.get u s.jobs)) [
  | inl e ↦ rw (e, coalesce_unique) v
  | inr (a, e) ↦ coalesce_some-Agrees u r a s e v
]

-- A job that is there: its handle, and only the tables of connections change.
pub coalesce_unique-known :
    (u : Bytes) (remote : Option ℕ) (s : JobStorage) (a : Arc)
    → Assoc.get u s.jobs ≡ some a
    → ((coalesce_unique u remote s).0 ≡ some a.job.handle)
      × ((coalesce_unique u remote s).1.jobs ≡ s.jobs)
      × ((coalesce_unique u remote s).1.queues ≡ s.queues)
unfolding coalesce_unique
coalesce_unique-known u remote s a e = rw (e, coalesce_unique) (refl, refl, refl)

pub coalesce_unique-new :
    (u : Bytes) (remote : Option ℕ) (s : JobStorage)
    → Assoc.get u s.jobs ≡ none
    → coalesce_unique u remote s ≡ (none, s)
unfolding coalesce_unique
coalesce_unique-new u remote s e = rw (e, coalesce_unique)
