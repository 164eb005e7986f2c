-- ===== src/Async/Requests.antt =====
-- What an action may ask the server: every request that it ever makes.
use giki_wallet.Common.{◌≡◌, refl, Bool, true, false, List, [], ◌∷◌, ◌++◌, All}
use giki_wallet.Errors.{Thrown}
use giki_wallet.Async.{
  Reply, fulfilled, rejected, Proc, stop, look, update, test, call, pause, fork, advance,
}
use giki_wallet.Async.Act.{when_settled}

-- Run from a state, the action makes only requests that satisfy `P`, whatever the replies are and
-- whatever happens to the store while it waits.
pub data Asks {S : Type 0} {Q : Type 0} {R : Q → Type 0} (P : Q → Type 0)
    : Proc S Q R → S → Type 0 where
  nothing : {s : S} → Asks P stop s
  reads : {f : S → Proc S Q R} {s : S} → Asks P (f s) s → Asks P (look f) s
  writes : {g : S → S} {p : Proc S Q R} {s : S} → Asks P p (g s) → Asks P (update g p) s
  splits :
      {b : Bool} {p q : Proc S Q R} {s : S}
      → (b ≡ true → Asks P p s)
      → (b ≡ false → Asks P q s)
      → Asks P (test b p q) s
  asks :
      {q : Q} {k : Reply (R q) → Proc S Q R} {s : S}
      → P q
      → ((a : Reply (R q)) (s' : S) → Asks P (k a) s')
      → Asks P (call q k) s
  waits : {p : Proc S Q R} {s : S} → ((s' : S) → Asks P p s') → Asks P (pause p) s
  spawns : {p k : Proc S Q R} {s : S} → Asks P p s → Asks P k (advance p s).0 → Asks P (fork p k) s

module _ {S : Type 0} {Q : Type 0} {R : Q → Type 0} where
  -- The requests that wait for a reply.
  abbrev pub pending : List (Proc S Q R) → List Q
  pending [] = []
  pending (call q k ∷ ts) = q ∷ pending ts
  pending (_ ∷ ts) = pending ts

  pending-All :
      (P : Q → Type 0) (ts us : List (Proc S Q R))
      → All P (pending ts)
      → All P (pending us)
      → All P (pending (ts ++ us))
  pending-All P [] us h k = k
  pending-All P (call q r ∷ ts) us (p, h) k = (p, pending-All P ts us h k)
  pending-All P (_ ∷ ts) us h k = pending-All P ts us h k

  -- So are the requests that wait after a turn.
  pub advance-Asks :
      {P : Q → Type 0} {p : Proc S Q R} {s : S} → Asks P p s → All P (pending (advance p s).1)
  unfolding advance
  advance-Asks nothing = tt
  advance-Asks (reads h) = advance-Asks h
  advance-Asks (writes h) = advance-Asks h
  advance-Asks (splits {b = true} h k) = advance-Asks (h refl)
  advance-Asks (splits {b = false} h k) = advance-Asks (k refl)
  advance-Asks (asks h rest) = (h, tt)
  advance-Asks (waits rest) = tt
  advance-Asks {P} {s} (spawns {p} {k} h1 h2) =
      pending-All P (advance p s).1 _ (advance-Asks h1) (advance-Asks h2)

  module _ {P : Q → Type 0} {s : S} where
    pub Asks-await :
        {q : Q} {ok : R q → Proc S Q R} {err : Thrown → Proc S Q R}
        → P q
        → ((a : R q) (s : S) → Asks P (ok a) s)
        → ((e : Thrown) (s : S) → Asks P (err e) s)
        → Asks P (call q (when_settled ok err)) s
    Asks-await {ok} {err} h k l =
        asks {k = when_settled ok err} h (elim [ fulfilled a ↦ k a | rejected e ↦ l e ])
