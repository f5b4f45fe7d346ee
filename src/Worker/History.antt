-- ===== src/Worker/History.antt =====
-- Histories of the calls that rustygeard/src/worker.rs allows on the shared table of workers.
use rustygear.Prelude.{
  ℕ, ◌≡◌, ◌≢◌, refl, Bool, true, false, ◌&&◌, arith, Bytes, bytes_eq, nat_eq, bytes_beq_iff, ◌==◌,
  if◌then◌else◌,
}
use rustygear.Prelude.Assoc
use rustygear.Prelude.Finite
use rustygear.Worker.{
  Workers, WrappingSet, Worker, new_workers, queue_wake, wakeworkers_drain, sleep, wakeup, shutdown,
  cant_do,
}
use rustygear.Worker.Presence.{
  Presence, absent, sleeping, awake, both, woken, presence, can, queue_wake-presence,
  shutdown-presence, sleep-presence, wakeup-presence,
}

-- No connection counts as awake and as asleep for one function.
abbrev pub NeverBoth : Workers → Type 0
NeverBoth ws = (g : Bytes) (r : ℕ) → presence g r ws.allworkers ≢ both

-- One fact for each operation: what stands in the table afterwards is `both` only if it was before.
keeps_if : (b : Bool) (p q : Presence) → p ≢ both → q ≢ both → (if b then p else q) ≢ both
keeps_if true p q h k = h
keeps_if false p q h k = k

woken-ne : (p : Presence) → woken p ≢ both
woken-ne absent e = cc
woken-ne sleeping e = cc
woken-ne awake e = cc
woken-ne both e = cc

module _ (F : Type 0) ⦃w : WrappingSet F⦄ where
  -- The tables that calls of the operations lead to, whatever the workers and the connections.
  pub data Reached : Workers → Type 0 where
    started : Reached new_workers
    slept : {ws : Workers} (k : Worker F) (r : ℕ) → Reached ws → Reached (sleep k r ws).1
    wakened : {ws : Workers} (k : Worker F) (r : ℕ) → Reached ws → Reached (wakeup k r ws).1
    queued : {ws : Workers} (f : Bytes) → Reached ws → Reached (queue_wake f ws).1
    drained : {ws : Workers} → Reached ws → Reached (wakeworkers_drain ws).1
    left : {ws : Workers} (c : ℕ) → Reached ws → Reached (shutdown c ws)

  -- After any history of sleep, wakeup, queue_wake, wakeworkers_drain and shutdown from the empty
  -- table, no connection is both active and inactive for a function.
  pub Reached-NeverBoth : (ws : Workers) → Reached ws → NeverBoth ws
  unfolding new_workers presence wakeworkers_drain Assoc.get
  Reached-NeverBoth ws started g r = λ e. cc
  Reached-NeverBoth ws (slept {ws = v} k c h) g r =
      rw (sleep-presence k c v g r).0
        (keeps_if (can g k && c == r) _ _ (λ e. cc) (Reached-NeverBoth v h g r))
  Reached-NeverBoth ws (wakened {ws = v} k c h) g r =
      rw (wakeup-presence k c v g r).0
        (keeps_if (can g k && c == r) _ _ (λ e. cc) (Reached-NeverBoth v h g r))
  Reached-NeverBoth ws (queued {ws = v} f h) g r =
      rw (queue_wake-presence f g r v).1
        (keeps_if (f == g) _ _ (woken-ne _) (Reached-NeverBoth v h g r))
  Reached-NeverBoth ws (drained {ws = v} h) g r = Reached-NeverBoth v h g r
  Reached-NeverBoth ws (left {ws = v} c h) g r =
      rw (shutdown-presence c g r v) (keeps_if (c == r) _ _ (λ e. cc) (Reached-NeverBoth v h g r))

module _ (F : Type 0) ⦃w : WrappingSet F⦄ where
  -- What others may do while the connection `r` waits to be woken for `f`.
  pub data Others (r : ℕ) (f : Bytes) : Workers → Workers → Type 0 where
    nothing : {ws : Workers} → Others r f ws ws
    slept :
        {ws vs : Workers} (k : Worker F) (c : ℕ)
        → (c == r) ≡ false
        → Others r f ws vs
        → Others r f ws (sleep k c vs).1
    wakened :
        {ws vs : Workers} (k : Worker F) (c : ℕ)
        → (c == r) ≡ false
        → Others r f ws vs
        → Others r f ws (wakeup k c vs).1
    queued :
        {ws vs : Workers} (g : Bytes)
        → (g == f) ≡ false
        → Others r f ws vs
        → Others r f ws (queue_wake g vs).1
    drained : {ws vs : Workers} → Others r f ws vs → Others r f ws (wakeworkers_drain vs).1
    left :
        {ws vs : Workers} (c : ℕ)
        → (c == r) ≡ false
        → Others r f ws vs
        → Others r f ws (shutdown c vs)

  Others-presence :
      (r : ℕ) (f : Bytes) (ws vs : Workers)
      → Others r f ws vs
      → presence f r vs.allworkers ≡ presence f r ws.allworkers
  unfolding wakeworkers_drain
  Others-presence r f ws vs nothing = refl
  Others-presence r f ws vs (slept {vs = us} k c e h) =
      ground (arith, (sleep-presence k c us f r).0, Others-presence r f ws us h)
  Others-presence r f ws vs (wakened {vs = us} k c e h) =
      ground (arith, (wakeup-presence k c us f r).0, Others-presence r f ws us h)
  Others-presence r f ws vs (queued {vs = us} g e h) =
      ground (arith, (queue_wake-presence g f r us).1, Others-presence r f ws us h)
  Others-presence r f ws vs (drained {vs = us} h) = Others-presence r f ws us h
  Others-presence r f ws vs (left {vs = us} c e h) =
      ground (arith, shutdown-presence c f r us, Others-presence r f ws us h)

  -- A connection that goes to sleep is among those that the next `queue_wake` of any function its
  -- worker can do returns, whatever other connections and other functions do in between.
  pub queue_wake-sleep :
      (k : Worker F) (f : Bytes) (r : ℕ) (ws vs : Workers)
      → can f k ≡ true
      → Others r f (sleep k r ws).1 vs
      → Finite.contains r (queue_wake f vs).0 ≡ true
  queue_wake-sleep k f r ws vs h o = ground (
    arith,
    h,
    (queue_wake-presence f f r vs).0,
    Others-presence r f (sleep k r ws).1 vs o,
    (sleep-presence k r ws f r).0,
  )

  -- A worker that says CANT_DO keeps the place that its connection has in the sets of that
  -- function, through `sleep` and `wakeup`.
  pub cant_do-presence :
      (k : Worker F) (f : Bytes) (r c : ℕ) (ws : Workers)
      → (presence f r (sleep (cant_do f k) c ws).1.allworkers ≡ presence f r ws.allworkers)
        × (presence f r (wakeup (cant_do f k) c ws).1.allworkers ≡ presence f r ws.allworkers)
  unfolding cant_do
  cant_do-presence k f r c ws =
      let stopped = w.iter-remove f f k.functions in
      let same = (bytes_beq_iff f f).1 refl in
      (
        ground (arith, (sleep-presence (cant_do f k) c ws f r).0, stopped, same),
        ground (arith, (wakeup-presence (cant_do f k) c ws f r).0, stopped, same),
      )
