-- ===== src/Queues/Search.antt =====
-- The order in which `get_job` of rustygeard/src/queues.rs serves the jobs.
use rustygear.Job.{Arc}
use rustygear.Prelude.{
  ℕ, ◌≡◌, ◌≢◌, refl, ap, sym, ◌∙◌, inl, inr, Bool, true, false, ◌||◌, not, Option, none, some, List,
  [], ◌∷◌, ◌++◌, append_assoc, arith, Bytes, bytes_eq, bytes_beq_iff, ◌==◌, if◌then◌else◌,
  Bool-cases, Option-cases,
}
use rustygear.Prelude.All.{All, All-append}
use rustygear.Prelude.Assoc
use rustygear.Prelude.Assoc.{get-insert}
use rustygear.Prelude.Finite
use rustygear.Queues.{
  next_prio, JobQueue, JobQueues, func_queues, pop_live, search_prios, search_func, search_funcs,
  or_else, empty_queues,
}

pub func_queues-none :
    (f : Bytes) (m : JobQueues) → Assoc.get f m ≡ none → func_queues f m ≡ empty_queues
unfolding func_queues
func_queues-none f m e = rw (e, func_queues)

pub func_queues-some :
    (f : Bytes) (qs : List JobQueue) (m : JobQueues)
    → Assoc.get f m ≡ some qs
    → func_queues f m ≡ qs
unfolding func_queues
func_queues-some f qs m e = rw (e, func_queues)

pub func_queues-insert :
    (f g : Bytes) (qs : List JobQueue) (m : JobQueues)
    → func_queues g (Assoc.insert f qs m) ≡ (if f == g then qs else func_queues g m)
unfolding func_queues
func_queues-insert f g qs m = ground (arith, get-insert f g qs m)

-- The three queues of a function as one: the jobs in the order in which they are to be served.
unfoldable pub in_order : List JobQueue → JobQueue
in_order [] = []
in_order (q ∷ qs) = q ++ in_order qs

abbrev pub is_dead : (ℕ → Bool) → Arc → Bool
is_dead alive a = not (alive a.alloc)

-- What serving one job from a queue is: the entries before the first live one are dropped, that
-- one is taken, and the others stay; with no live entry, nothing is left.
abbrev pub Serves : (ℕ → Bool) → JobQueue → Option Arc → JobQueue → Type 0
Serves alive xs none rest = All (is_dead alive) xs × (rest ≡ [])
Serves alive xs (some a) rest =
    (dead : JobQueue) × All (is_dead alive) dead × (alive a.alloc ≡ true) × (xs ≡ dead ++ a ∷ rest)

module _ (alive : ℕ → Bool) where
  Serves-cons :
      (a : Arc) (xs : JobQueue) (o : Option Arc) (rest : JobQueue)
      → alive a.alloc ≡ false
      → Serves alive xs o rest
      → Serves alive (a ∷ xs) o rest
  Serves-cons a xs none rest e (d, r) = ((ground arith, d), r)
  Serves-cons a xs (some b) rest e (dead, d, l, r) = (a ∷ dead, (ground arith, d), l, ap (◌∷◌ a) r)

  -- An exhausted queue in front of the others.
  Serves-append :
      (xs ys : JobQueue) (o : Option Arc) (rest : JobQueue)
      → All (is_dead alive) xs
      → Serves alive ys o rest
      → Serves alive (xs ++ ys) o rest
  Serves-append xs ys none rest h (d, r) = (All-append (is_dead alive) xs ys h d, r)
  Serves-append xs ys (some b) rest h (dead, d, l, r) = (
    xs ++ dead,
    All-append (is_dead alive) xs dead h d,
    l,
    ap (◌++◌ xs) r ∙ sym (append_assoc xs dead (b ∷ rest)),
  )

  pop_live-Serves : (xs : JobQueue) → Serves alive xs (pop_live alive xs).0 (pop_live alive xs).1
  unfolding pop_live
  pop_live-Serves [] = (tt, refl)
  pop_live-Serves (a ∷ xs) = elim (Bool-cases (alive a.alloc)) [
    | inl e ↦ rw (e, pop_live) ([], tt, e, refl)
    | inr e ↦ rw (e, pop_live) (Serves-cons a xs _ _ e (pop_live-Serves xs))
  ]

  next_prio-Serves :
      (q : JobQueue) (o : Option Arc) (rest : JobQueue) (qs : List JobQueue)
      → Serves alive q o rest
      → Serves alive
          (in_order qs)
          (search_prios alive none qs).0
          (in_order (search_prios alive none qs).1)
      → let r = next_prio (or_else o none) rest qs (search_prios alive (or_else o none) qs) in
        Serves alive (q ++ in_order qs) r.0 (in_order r.1)
  unfolding in_order next_prio
  next_prio-Serves q none rest qs (d, e) k = rw e (Serves-append q (in_order qs) _ _ d k)
  next_prio-Serves q (some a) rest qs (dead, d, l, e) k = (
    dead,
    d,
    l,
    ap (λ (x : JobQueue). x ++ in_order qs) e ∙ append_assoc dead (a ∷ rest) (in_order qs),
  )

  -- The loop over the priorities of a function does what popping one queue, the three in order,
  -- until a live entry does, whatever is dead in them.
  pub search_prios-Serves :
      (qs : List JobQueue)
      → Serves alive
          (in_order qs)
          (search_prios alive none qs).0
          (in_order (search_prios alive none qs).1)
  unfolding search_prios in_order
  search_prios-Serves [] = (tt, refl)
  search_prios-Serves (q ∷ qs) =
      next_prio-Serves q (pop_live alive q).0 (pop_live alive q).1 qs (pop_live-Serves q)
        (search_prios-Serves qs)

  -- A job that is found is not lost: the later functions can only put another in its place.
  search_prios-some : (a : Arc) (qs : List JobQueue) → (search_prios alive (some a) qs).0 ≢ none
  unfolding search_prios next_prio
  search_prios-some a [] e = cc
  search_prios-some a (q ∷ qs) e = ground arith

  search_func-some :
      (f : Bytes) (p : Option Arc × JobQueues) → p.0 ≢ none → (search_func alive f p).0 ≢ none
  unfolding search_func
  search_func-some f (none, m) h = absurd (h refl)
  search_func-some f (some a, m) h = elim (Option-cases (Assoc.get f m)) [
    | inl e ↦ rw (e, search_func) (λ x. cc)
    | inr (qs, e) ↦ rw (e, search_func) (search_prios-some a qs)
  ]

  search_funcs-some :
      (fs : List Bytes) (p : Option Arc × JobQueues)
      → p.0 ≢ none
      → (search_funcs alive fs p).0 ≢ none
  unfolding search_funcs
  search_funcs-some [] p h = h
  search_funcs-some (f ∷ fs) p h =
      search_funcs-some fs (search_func alive f p) (search_func-some f p h)

  -- What a search with no job so far does to the queues of its function, and of the others.
  pub search_func-Serves :
      (f : Bytes) (m : JobQueues)
      → let r = search_func alive f (none, m) in
        Serves alive (in_order (func_queues f m)) r.0 (in_order (func_queues f r.1))
  unfolding search_func in_order
  search_func-Serves f m = elim (Option-cases (Assoc.get f m)) [
    | inl e ↦ rw (e, search_func) (rw (func_queues-none f m e) (tt, refl))
    | inr (qs, e) ↦
        rw (e, search_func)
          (rw (func_queues-some f qs m e, func_queues-insert f f _ m, (bytes_beq_iff f f).1 refl)
            (search_prios-Serves qs))
  ]

  pub search_func-other :
      (f g : Bytes) (p : Option Arc × JobQueues)
      → (f == g) ≡ false
      → Assoc.get g (search_func alive f p).1 ≡ Assoc.get g p.1
  unfolding search_func
  search_func-other f g (job, m) h = elim (Option-cases (Assoc.get f m)) [
    | inl e ↦ rw (e, search_func)
    | inr (qs, e) ↦ rw (e, search_func) (rw (get-insert f g _ m, h))
  ]

  -- The queues of a function after a search for another one.
  func_queues-other :
      (f g : Bytes) (p : Option Arc × JobQueues)
      → (f == g) ≡ false
      → func_queues g (search_func alive f p).1 ≡ func_queues g p.1
  unfolding func_queues
  func_queues-other f g p h = ground (arith, search_func-other f g p h)

  -- A search that finds nothing has gone through the queues of all the functions.
  pub search_funcs-none :
      (fs : List Bytes) (m : JobQueues) (g : Bytes)
      → (search_funcs alive fs (none, m)).0 ≡ none
      → Finite.contains g fs ≡ true
      → All (is_dead alive) (in_order (func_queues g m))
  unfolding search_funcs Finite.contains
  search_funcs-none [] m g e h = cc
  search_funcs-none (f ∷ fs) m g e h =
      go (search_func alive f (none, m)) (search_func-Serves f m) (func_queues-other f g (none, m))
        e h λ m'. search_funcs-none fs m' g
    where
      go :
          (r : Option Arc × JobQueues)
          → Serves alive (in_order (func_queues f m)) r.0 (in_order (func_queues f r.1))
          → ((f == g) ≡ false → func_queues g r.1 ≡ func_queues g m)
          → (search_funcs alive fs r).0 ≡ none
          → (f == g || Finite.contains g fs) ≡ true
          → ((m' : JobQueues)
              → (search_funcs alive fs (none, m')).0 ≡ none
              → Finite.contains g fs ≡ true
              → All (is_dead alive) (in_order (func_queues g m')))
          → All (is_dead alive) (in_order (func_queues g m))
      go (some a, m') s o n c ih = absurd (search_funcs-some fs (some a, m') (λ x. cc) n)
      go (none, m') s o n c ih = elim (Bool-cases (f == g)) [
        | inl same ↦ rw (← (bytes_beq_iff f g).0 same) s.0
        | inr differ ↦ rw (← o differ) (ih m' n (ground arith))
      ]
