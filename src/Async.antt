-- ===== src/Async.antt =====
-- The asynchronous actions of the stores, as JavaScript runs them.
--
-- An action is a tree: it reads the store (`look`), replaces it (`update`), branches (`test`), starts
-- another action without awaiting it (`fork`), awaits a request (`call`) or only gives up its turn (`pause`, which
-- is what awaiting another action does when that one returns). Between two awaits an action is
-- not interrupted; while it awaits, any other action may run.
pub mod Act
pub mod Runs
pub mod Invariants
pub mod Flags
pub mod Rules
pub mod Requests
pub mod Schedules
use giki_wallet.Common.{◌≡◌, ◌++◌, List, [], ◌∷◌, Bool, true, false}
use giki_wallet.Errors.{Thrown}

-- How a promise settles.
pub data Reply (A : Type 0) : Type 0 where
  fulfilled : A → Reply A
  rejected : Thrown → Reply A

-- `S` is the store, `Q` the requests, `R q` what request `q` is answered with.
pub data Proc (S : Type 0) (Q : Type 0) (R : Q → Type 0) : Type 0 where
  stop : Proc S Q R
  look : (S → Proc S Q R) → Proc S Q R
  update : (S → S) → Proc S Q R → Proc S Q R
  test : Bool → Proc S Q R → Proc S Q R → Proc S Q R
  call : (q : Q) → (Reply (R q) → Proc S Q R) → Proc S Q R
  pause : Proc S Q R → Proc S Q R
  fork : Proc S Q R → Proc S Q R → Proc S Q R

module _ {S : Type 0} {Q : Type 0} {R : Q → Type 0} where
  -- Run up to the next await: the store then, and what waits (a forked action comes first).
  unfoldable pub advance : Proc S Q R → S → S × List (Proc S Q R)
  advance stop s = (s, [])
  advance (look f) s = advance (f s) s
  advance (update g p) s = advance p (g s)
  advance (test b p q) s = elim b [ true ↦ advance p s | false ↦ advance q s ]
  advance (call q k) s = (s, call q k ∷ [])
  advance (pause p) s = (s, pause p ∷ [])
  advance (fork p k) s = let (s1, ts) = advance p s in let (s2, us) = advance k s1 in (s2, ts ++ us)

pub record Config (S : Type 0) (Q : Type 0) (R : Q → Type 0) : Type 0 where
  pub store : S
  pub waiting : List (Proc S Q R)

-- What the page may do to a store: the actions that it may start, at any moment, and the changes
-- that come from outside the store's own actions.
pub record Page (S : Type 0) (Q : Type 0) (R : Q → Type 0) : Type 1 where
  pub Starts : Proc S Q R → Type 0
  pub Outside : S → S → Type 0

module _ {S : Type 0} {Q : Type 0} {R : Q → Type 0} where
  abbrev pub settle : Proc S Q R → S → List (Proc S Q R) → Config S Q R
  settle p s others = record { store = (advance p s).0; waiting = (advance p s).1 ++ others }

  -- One turn of the event loop. A request may be answered in any order, with any reply.
  pub data Turn (page : Page S Q R) (c : Config S Q R) : Config S Q R → Type 0 where
    start : (p : Proc S Q R) → page.Starts p → Turn page c (settle p c.store c.waiting)
    answer :
        (l r : List (Proc S Q R)) (q : Q) (k : Reply (R q) → Proc S Q R) (a : Reply (R q))
        → c.waiting ≡ l ++ call q k ∷ r
        → Turn page c (settle (k a) c.store (l ++ r))
    wake :
        (l r : List (Proc S Q R)) (p : Proc S Q R)
        → c.waiting ≡ l ++ pause p ∷ r
        → Turn page c (settle p c.store (l ++ r))
    outside : (s : S) → page.Outside c.store s → Turn page c (record c { store = s })

  pub data Reach (page : Page S Q R) (c : Config S Q R) : Config S Q R → Type 0 where
    here : Reach page c c
    next : {d e : Config S Q R} → Reach page c d → Turn page d e → Reach page c e
