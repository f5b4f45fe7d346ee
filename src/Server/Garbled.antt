-- ===== src/Server/Garbled.antt =====
-- A client id that is no UTF-8, and the report `workers` of rustygeard/src/admin.rs.
use rustygear.Admin.{worker_line, report_worker, worker_lines}
use rustygear.Outcome.{IoError, Outcome, ok, err, panic}
use rustygear.Prelude.{
  ℕ, ◌≡◌, ◌≢◌, refl, ap, ◌∙◌, inl, inr, Bool, true, Option, none, some, [], ◌∷◌, ◌++◌, arith, Bytes,
  bytes_eq, nat_eq, nat_beq_iff, ◌==◌, if◌then◌else◌, Bool-cases, Option-cases,
}
use rustygear.Prelude.Assoc
use rustygear.Prelude.Assoc.{Map, get-insert}
use rustygear.Service.Keeps.{guarded-keeps}
use rustygear.Service.Missing.{continue-panic}
use rustygear.Service.Locks.{with_worker-open}
use rustygear.Service.State.{
  pure, panics, modify, ◌>>=◌, ◌>>◌, Mutex, Server, M, continue, release, with_worker, at_cell,
  put_worker, poison_cell, cell_poisoned,
}
use rustygear.Text.{from_utf8}
use rustygear.Worker.{WrappingSet, Worker, iter}

-- The worker of a cell has a client id that cannot be printed.
abbrev pub Garbled : {F : Type 0} → ℕ → Server F → Type 0
Garbled {F} k st =
    (c : Mutex (Worker F)) × (Assoc.get k st.cells ≡ some c) × (from_utf8 c.value.client_id ≡ none)

module _ {F : Type 0} ⦃w : WrappingSet F⦄ where
  -- What the report prints of one worker.
  abbrev printed : ℕ → ℕ → Worker F → M F Bytes
  printed conn k worker = elim (from_utf8 worker.client_id) [
    | none ↦ panics
    | some client_id ↦
        let (fs, worker') = iter worker in
        do
          modify (put_worker k worker')
          pure (worker_line conn worker.peer_addr worker.client_id fs)
  ]

  with_worker-poisoned :
      {A : Type 0} (k : ℕ) (m : Worker F → M F A) (st : Server F) (c : Mutex (Worker F))
      → Assoc.get k st.cells ≡ some c
      → c.poisoned ≡ true
      → with_worker k m st ≡ (panic, st)
  unfolding with_worker
  with_worker-poisoned {A} k m st c e h =
      let closed : cell_poisoned k st ≡ true = rw (e, cell_poisoned) h in
      ap
        (λ (b : Bool).
          let r : Outcome A × Server F =
            if b
            then (panic, st)
            else release (poison_cell k) (at_cell m (Assoc.get k st.cells) st) in
          r)
        closed

  report_worker-Garbled :
      (conn k : ℕ) (st : Server F) → Garbled k st → (report_worker conn k st).0 ≡ panic
  unfolding report_worker
  report_worker-Garbled conn k st (c, e, bad) = elim (Bool-cases c.poisoned) [
    | inl poisoned ↦ rw (with_worker-poisoned k _ st c e poisoned) refl
    | inr good ↦ rw (with_worker-open k _ st c e good) (rw (bad, report_worker) refl)
  ]

  report_worker-no_err :
      (conn k : ℕ) (st : Server F) (x : IoError) → (report_worker conn k st).0 ≢ err x
  unfolding report_worker with_worker
  report_worker-no_err conn k st x e = ground arith

  -- The report rotates the functions of a worker, and keeps its client id.
  rotated-Garbled :
      (k j : ℕ) (c : Mutex (Worker F)) (st : Server F)
      → Assoc.get j st.cells ≡ some c
      → Garbled k st
      → Garbled k (put_worker j (iter c.value).1 st)
  unfolding iter
  rotated-Garbled k j c st e (d, at, bad) = elim (Bool-cases (j == k)) [
    | inl same ↦
        let one : c ≡ d = ground (arith, e, at, nat_beq_iff j k, same) in
        (
          record c { value = (iter c.value).1 },
          rw (e, put_worker) (get-insert j k _ st.cells ∙ rw same refl),
          rw (← one) at bad,
        )
    | inr other ↦ (d, rw (e, put_worker) (get-insert j k _ st.cells ∙ rw other at), bad)
  ]

  poisoned-Garbled : (k j : ℕ) (st : Server F) → Garbled k st → Garbled k (poison_cell j st)
  poisoned-Garbled k j st (d, at, bad) = elim (Option-cases (Assoc.get j st.cells)) [
    | inl e ↦ rw (e, poison_cell) (d, at, bad)
    | inr (c, e) ↦ elim (Bool-cases (j == k)) [
      | inl same ↦
          let one : c ≡ d = ground (arith, e, at, nat_beq_iff j k, same) in
          (
            record c { poisoned = true },
            rw (e, poison_cell) (get-insert j k _ st.cells ∙ rw same refl),
            rw (← one) at bad,
          )
      | inr other ↦ (d, rw (e, poison_cell) (get-insert j k _ st.cells ∙ rw other at), bad)
    ]
  ]

  -- The step of a report inside the lock of its worker.
  at_cell-Garbled :
      (conn k j : ℕ) (o : Option (Mutex (Worker F))) (st : Server F)
      → Assoc.get j st.cells ≡ o
      → Garbled k st
      → Garbled k (at_cell (printed conn j) o st).1
  at_cell-Garbled conn k j none st e g = g
  at_cell-Garbled conn k j (some c) st e g = elim (Option-cases (from_utf8 c.value.client_id)) [
    | inl bad ↦ rw (bad, printed) g
    | inr (text, good) ↦ rw (good, printed) (rotated-Garbled k j c st e g)
  ]

  report_worker-keeps :
      (conn k j : ℕ) (st : Server F) → Garbled k st → Garbled k (report_worker conn j st).1
  unfolding report_worker with_worker
  report_worker-keeps conn k j st g =
      guarded-keeps {P = Garbled k} (cell_poisoned j) (poison_cell j)
        (λ st. at_cell (printed conn j) (Assoc.get j st.cells) st) st (poisoned-Garbled k j) g
        (at_cell-Garbled conn k j (Assoc.get j st.cells) st refl g)

  -- The first of the lines panics, or the others do.
  next_line :
      (k : ℕ) (r : Outcome Bytes × Server F) (m : Map ℕ ℕ)
      → ((x : IoError) → r.0 ≢ err x)
      → Garbled k r.1
      → ((st : Server F) → Garbled k st → (worker_lines m st).0 ≡ panic)
      → (continue r λ line. worker_lines m >>= λ rest. pure (line ++ rest)).0 ≡ panic
  next_line k (ok line, st) m n g h = continue-panic (worker_lines m st) _ (h st g)
  next_line k (err x, st) m n g h = absurd (n x refl)
  next_line k (panic, st) m n g h = refl

  pub worker_lines-Garbled :
      (conn k : ℕ) (m : Map ℕ ℕ) (st : Server F)
      → Assoc.get conn m ≡ some k
      → Garbled k st
      → (worker_lines m st).0 ≡ panic
  unfolding worker_lines Assoc.get
  worker_lines-Garbled conn k [] st e g = cc
  worker_lines-Garbled conn k ((c, j) ∷ m) st e g = elim (Bool-cases (c == conn)) [
    | inl same ↦
        let here : j ≡ k = ground (arith, e, same) in
        continue-panic (report_worker c j st) _ (report_worker-Garbled c j st (rw (← here) at g))
    | inr other ↦
        next_line k (report_worker c j st) m (report_worker-no_err c j st)
          (report_worker-keeps c k j st g)
          (λ st'. worker_lines-Garbled conn k m st' (ground (arith, e, other)))
  ]
