-- ===== src/Worker/Refinement.antt =====
-- The table of rustygeard/src/worker.rs as an implementation of a plain function: where each
-- connection stands for each function.
use mathlib.Core.Path.{fun_ext}
use rustygear.Prelude.{
  inl, inr, Option-cases, ℕ, ◌≡◌, refl, ap, ◌∙◌, Bool, false, ◌&&◌, List, [], ◌∷◌, Bytes, bytes_eq,
  nat_eq, ◌==◌, if◌then◌else◌,
}
use rustygear.Prelude.Assoc
use rustygear.Prelude.Finite
use rustygear.Worker
use rustygear.Worker.{Workers, WrappingSet}
use rustygear.Worker.Presence.{
  Presence, absent, sleeping, awake, woken, is_sleeper, presence, can, queue_wake-presence,
  shutdown-presence, sleep-presence, wakeup-presence,
}

-- The operations, with the workers and the connections that call them.
pub data Op (F : Type 0) : Type 0 where
  sleep wakeup : Worker.Worker F → ℕ → Op F
  queue_wake : Bytes → Op F
  wakeworkers_drain : Op F
  shutdown : ℕ → Op F

-- The specification: a state, what an operation makes of it, and whom it wakes. The state is where
-- each connection stands for each function, and who is in the set `wakeworkers`.
abbrev pub Standing : Type 0
Standing = Bytes → ℕ → Presence

abbrev pub View : Type 0
View = Standing × (ℕ → Bool)

unfoldable pub view : Workers → View
unfolding Finite.contains
view ws = ((λ g r. presence g r ws.allworkers), (λ r. Finite.contains r ws.wakeworkers))

queue_wake-wakeworkers :
    (f : Bytes) (ws : Workers) → (Worker.queue_wake f ws).1.wakeworkers ≡ ws.wakeworkers
unfolding Worker.queue_wake
queue_wake-wakeworkers f ws = elim (Option-cases (Assoc.get f ws.allworkers)) [
  | inl e ↦ rw (e, Worker.queue_wake) refl
  | inr (s, e) ↦ rw (e, Worker.queue_wake) refl
]

module _ {F : Type 0} ⦃w : WrappingSet F⦄ where
  abbrev pub effect : Op F → View → View
  effect (Op.sleep k c) (v, d) = ((λ g r. if can g k && c == r then sleeping else v g r), d)
  effect (Op.wakeup k c) (v, d) = ((λ g r. if can g k && c == r then awake else v g r), d)
  effect (Op.queue_wake f) (v, d) = ((λ g r. if f == g then woken (v g r) else v g r), d)
  effect Op.wakeworkers_drain (v, d) = (v, (λ r. false))
  effect (Op.shutdown c) (v, d) = ((λ g r. if c == r then absent else v g r), d)

  abbrev pub wakes : Op F → View → ℕ → Bool
  wakes (Op.queue_wake f) (v, d) r = is_sleeper (v f r)
  wakes Op.wakeworkers_drain (v, d) r = d r
  wakes _ v r = false

  -- The implementation: the same, with the table.
  unfoldable pub apply : Op F → Workers → Workers
  apply (Op.sleep k c) ws = (Worker.sleep k c ws).1
  apply (Op.wakeup k c) ws = (Worker.wakeup k c ws).1
  apply (Op.queue_wake f) ws = (Worker.queue_wake f ws).1
  apply Op.wakeworkers_drain ws = (Worker.wakeworkers_drain ws).1
  apply (Op.shutdown c) ws = Worker.shutdown c ws

  unfoldable pub woke : Op F → Workers → ℕ → Bool
  woke (Op.queue_wake f) ws r = Finite.contains r (Worker.queue_wake f ws).0
  woke Op.wakeworkers_drain ws r = Finite.contains r (Worker.wakeworkers_drain ws).0
  woke _ ws r = false

  -- A run of either, with whom each operation wakes.
  unfoldable pub run : List (Op F) → Workers → Workers × List (ℕ → Bool)
  run [] ws = (ws, [])
  run (o ∷ os) ws = let (end, seen) = run os (apply o ws) in (end, woke o ws ∷ seen)

  unfoldable pub replay : List (Op F) → View → View × List (ℕ → Bool)
  replay [] v = (v, [])
  replay (o ∷ os) v = let (end, seen) = replay os (effect o v) in (end, wakes o v ∷ seen)

  apply-standing : (o : Op F) (ws : Workers) → (view (apply o ws)).0 ≡ (effect o (view ws)).0
  unfolding apply view Worker.wakeworkers_drain
  apply-standing (Op.sleep k c) ws = fun_ext λ g. fun_ext λ r. (sleep-presence k c ws g r).0
  apply-standing (Op.wakeup k c) ws = fun_ext λ g. fun_ext λ r. (wakeup-presence k c ws g r).0
  apply-standing (Op.queue_wake f) ws = fun_ext λ g. fun_ext λ r. (queue_wake-presence f g r ws).1
  apply-standing Op.wakeworkers_drain ws = refl
  apply-standing (Op.shutdown c) ws = fun_ext λ g. fun_ext λ r. shutdown-presence c g r ws

  apply-drained : (o : Op F) (ws : Workers) → (view (apply o ws)).1 ≡ (effect o (view ws)).1
  unfolding apply view Worker.wakeworkers_drain Worker.sleep Worker.wakeup Worker.shutdown
      Finite.contains
  apply-drained (Op.sleep k c) ws = refl
  apply-drained (Op.wakeup k c) ws = refl
  apply-drained (Op.queue_wake f) ws =
      ap (λ (l : List ℕ). λ (r : ℕ). Finite.contains r l) (queue_wake-wakeworkers f ws)
  apply-drained Op.wakeworkers_drain ws = refl
  apply-drained (Op.shutdown c) ws = refl

  apply-view : (o : Op F) (ws : Workers) → view (apply o ws) ≡ effect o (view ws)
  apply-view o ws =
      ap (λ (v : Standing). let p : View = (v, (view (apply o ws)).1) in p) (apply-standing o ws)
      ∙ ap (λ (d : ℕ → Bool). let p : View = ((effect o (view ws)).0, d) in p) (apply-drained o ws)

  woke-view : (o : Op F) (ws : Workers) → woke o ws ≡ wakes o (view ws)
  unfolding woke view Worker.wakeworkers_drain
  woke-view (Op.sleep k c) ws = refl
  woke-view (Op.wakeup k c) ws = refl
  woke-view (Op.queue_wake f) ws = fun_ext λ r. (queue_wake-presence f f r ws).0
  woke-view Op.wakeworkers_drain ws = refl
  woke-view (Op.shutdown c) ws = refl

  -- The table of workers implements a plain specification, whose state is where each connection
  -- stands for each function and who is to be drained: after any sequence of operations from any
  -- table, the view of the table is what the specification makes of the view before, and the
  -- connections that each `queue_wake` and `wakeworkers_drain` returns are those that the
  -- specification names.
  pub run-replay :
      (os : List (Op F)) (ws : Workers)
      → (view (run os ws).0 ≡ (replay os (view ws)).0) × ((run os ws).1 ≡ (replay os (view ws)).1)
  unfolding run replay
  run-replay [] ws = (refl, refl)
  run-replay (o ∷ os) ws =
      let (end, seen) = run-replay os (apply o ws) in
      (
        end ∙ ap (λ (v : View). (replay os v).0) (apply-view o ws),
        ap (◌∷◌ (woke o ws)) (seen ∙ ap (λ (v : View). (replay os v).1) (apply-view o ws))
            ∙ ap (λ (b : ℕ → Bool). b ∷ (replay os (effect o (view ws))).1) (woke-view o ws),
      )
