-- ===== src/Threads/Order.antt =====
-- The order in which the server locks its mutexes: those of `workers_by_conn_id`, a worker, the
-- storage, the workers, the waiters and the senders.
use rustygear.Outcome.{ok, err, panic}
use rustygear.Prelude.{
  Bool, true, false, ◌||◌, ◌&&◌, ◌==◌, nat_eq, ◌⊎◌, ℕ, ◌<◌, ◌≤◌, ◌≡◌, ap, List, [], ◌∷◌, arith,
}
use rustygear.Service.State.{Server}
use rustygear.Threads.Program.{Lock, Prog, done, acquire, unlock, act, closing, unguarded, ◌>>=◌}

unfoldable pub rank : Lock → ℕ
rank Lock.conns = 0
rank (Lock.cell k) = 1
rank Lock.queues = 2
rank Lock.workers = 3
rank Lock.waiters = 4
rank Lock.senders = 5

abbrev pub cell_of : Lock → ℕ
cell_of (Lock.cell k) = k
cell_of l = 0

unfoldable pub lock_eq : Lock → Lock → Bool
unfolding rank
lock_eq l m = (rank l == rank m) && (cell_of l == cell_of m)

unfoldable pub locked : Lock → List Lock → Bool
unfolding lock_eq
locked l [] = false
locked l (h ∷ hs) = lock_eq l h || locked l hs

abbrev pub Below : ℕ → List Lock → Type 0
Below n [] = Unit {0}
Below n (l ∷ hs) = (rank l < n) × Below n hs

pub Below-up : (m n : ℕ) (hs : List Lock) → m ≤ n → Below m hs → Below n hs
Below-up m n [] h b = tt
Below-up m n (l ∷ hs) h (b, bs) = (omega arith, Below-up m n hs h bs)

-- A step that changes the storage is one with its mutex.
abbrev pub Minds : {F : Type 0} → List Lock → Server F → Server F → Type 0
Minds hs st st' = (st'.queues.value ≡ st.queues.value) ⊎ (locked Lock.queues hs ≡ true)

module _ {F A : Type 0} where
  -- From where the first guards are held, a program locks each mutex after those before it in the
  -- order, changes the storage only with its mutex, and holds the last guards at its end.
  abbrev pub Ordered : List Lock → Prog F A → List Lock → Type 0
  Ordered hs (done (ok a)) out = hs ≡ out
  Ordered hs (done (err e)) out = hs ≡ out
  Ordered hs (done panic) out = Unit {0}
  Ordered hs (acquire l p) out = Below (rank l) hs × Ordered (l ∷ hs) p out
  Ordered hs (unlock p) out = Ordered (unguarded hs) p out
  Ordered hs (act g k) out = (st : Server F) → Minds hs st (g st) × Ordered hs (k st) out

  pub Ordered-closing :
      (p : Prog F A) (hs out : List Lock)
      → Ordered hs p out
      → Ordered hs (closing p) (unguarded out)
  Ordered-closing (done (ok a)) hs out o = ap unguarded o
  Ordered-closing (done (err e)) hs out o = ap unguarded o
  Ordered-closing (done panic) hs out o = tt
  Ordered-closing (acquire l p) hs out (b, o) = (b, Ordered-closing p (l ∷ hs) out o)
  Ordered-closing (unlock p) hs out o = Ordered-closing p (unguarded hs) out o
  Ordered-closing (act g k) hs out o =
      λ st. let (minds, rest) = o st in (minds, Ordered-closing (k st) hs out rest)

module _ {F A B : Type 0} where
  pub Ordered-bind :
      (p : Prog F A) (f : A → Prog F B) (hs mid : List Lock)
      → Ordered hs p mid
      → ((a : A) → Ordered mid (f a) mid)
      → Ordered hs (p >>= f) mid
  Ordered-bind (done (ok a)) f hs mid o h = rw o (h a)
  Ordered-bind (done (err e)) f hs mid o h = o
  Ordered-bind (done panic) f hs mid o h = tt
  Ordered-bind (acquire l p) f hs mid (b, o) h = (b, Ordered-bind p f (l ∷ hs) mid o h)
  Ordered-bind (unlock p) f hs mid o h = Ordered-bind p f (unguarded hs) mid o h
  Ordered-bind (act g k) f hs mid o h =
      λ st. let (minds, rest) = o st in (minds, Ordered-bind (k st) f hs mid rest h)
