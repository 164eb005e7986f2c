-- ===== src/Async/Rules.antt =====
-- Rules for `await`: what is owed, and what is kept, on both ways that a promise settles.
use giki_wallet.Common.{Bool}
use giki_wallet.Errors.{Thrown}
use giki_wallet.Async.{fulfilled, rejected, Proc, call}
use giki_wallet.Async.Act.{when_settled}
use giki_wallet.Async.Flags.{Pays, called}
use giki_wallet.Async.Invariants.{Keeps}

module _ {S : Type 0} {Q : Type 0} {R : Q → Type 0} {flag : S → Bool} {owes : Bool} {s : S} where
  pub awaited :
      {q : Q} {ok : R q → Proc S Q R} {err : Thrown → Proc S Q R}
      → ((a : R q) (s : S) → Pays flag owes (ok a) s)
      → ((e : Thrown) (s : S) → Pays flag owes (err e) s)
      → Pays flag owes (call q (when_settled ok err)) s
  awaited {ok} {err} h k =
      called {k = when_settled ok err} (elim [ fulfilled a ↦ h a | rejected e ↦ k e ])

module _ {S : Type 0} {Q : Type 0} {R : Q → Type 0} (Inv : S → Type 0) where
  pub awaited-Keeps :
      (q : Q) (ok : R q → Proc S Q R) (err : Thrown → Proc S Q R) (s : S)
      → ((a : R q) (s : S) → Inv s → Keeps Inv (ok a) s Inv)
      → ((e : Thrown) (s : S) → Inv s → Keeps Inv (err e) s Inv)
      → Inv s
      → Keeps Inv (call q (when_settled ok err)) s Inv
  awaited-Keeps q ok err s h k i = (i, elim [ fulfilled a ↦ h a | rejected e ↦ k e ])
