-- ===== src/Service/Waiters.antt =====
-- The waiters of a handle in rustygeard/src/service.rs before and after a submission.
use rustygear.Prelude.{
  ℕ, ◌≡◌, refl, ◌∙◌, Bool, true, false, none, some, List, [], ◌∷◌, ◌++◌, append-nil, Bytes,
  bytes_eq, ◌==◌, if◌then◌else◌,
}
use rustygear.Prelude.Assoc
use rustygear.Prelude.Assoc.{Map, get-insert}
use rustygear.Service.Submit.{add_waiter}

-- The waiters of a handle, none where the table has no entry.
abbrev pub waiters_of : Bytes → Map Bytes (List ℕ) → List ℕ
waiters_of h m = elim (Assoc.get h m) [ none ↦ [] | some cs ↦ cs ]

-- The connection that a submission adds: that of the client, if it waits.
abbrev pub joining : Bool → ℕ → List ℕ
joining true c = c ∷ []
joining false c = []

pub get-add_waiter :
    (h k : Bytes) (wait : Bool) (c : ℕ) (m : Map Bytes (List ℕ))
    → Assoc.get k (add_waiter h wait c m)
      ≡ (if h == k then some (waiters_of h m ++ joining wait c) else Assoc.get k m)
unfolding add_waiter
get-add_waiter h k true c m = get-insert h k (waiters_of h m ++ c ∷ []) m
get-add_waiter h k false c m =
    get-insert h k (waiters_of h m) m ∙ rw (append-nil (waiters_of h m)) refl
