-- ===== src/Async/Act.antt =====
-- Writing actions: a promise's value and its rejection are two continuations, so that `try`,
-- `catch` and `finally` are plain functions and `do` blocks read as the source does.
use giki_wallet.Common.{Bool}
use giki_wallet.Errors.{Thrown}
use giki_wallet.Async.{
  Reply, fulfilled, rejected, Proc, stop, look, update, test, call, pause, fork,
}

abbrev pub Act : (S : Type 0) (Q : Type 0) → (Q → Type 0) → Type 0 → Type 0
Act S Q R A = (A → Proc S Q R) → (Thrown → Proc S Q R) → Proc S Q R

module _ {S : Type 0} {Q : Type 0} {R : Q → Type 0} where
  infixl 5 ◌>>=◌ ◌>>◌
  abbrev pub ◌>>=◌ : {A B : Type 0} → Act S Q R A → (A → Act S Q R B) → Act S Q R B
  ◌>>=◌ m k ok err = m (λ a. k a ok err) err

  abbrev pub ◌>>◌ : {B : Type 0} → Act S Q R (Unit {0}) → Act S Q R B → Act S Q R B
  ◌>>◌ m k ok err = m (λ _. k ok err) err

  abbrev pub return : {A : Type 0} → A → Act S Q R A
  return a ok err = ok a

  abbrev pub throw : {A : Type 0} → Thrown → Act S Q R A
  throw e ok err = err e

  -- `set(f)`, a synchronous change.
  abbrev pub set : (S → S) → Act S Q R (Unit {0})
  set f ok err = update f (ok tt)

  -- `get()`.
  abbrev pub get : Act S Q R S
  get ok err = look ok

  abbrev pub when_settled :
      {A : Type 0} → (A → Proc S Q R) → (Thrown → Proc S Q R) → Reply A → Proc S Q R
  when_settled ok err (fulfilled a) = ok a
  when_settled ok err (rejected e) = err e

  -- `await` of a request to the server.
  abbrev pub await : (q : Q) → Act S Q R (R q)
  await q ok err = call q (when_settled ok err)

  -- `await` of another action: its caller goes on in a later turn.
  abbrev pub await_act : {A : Type 0} → Act S Q R A → Act S Q R A
  await_act m ok err = m (λ a. pause (ok a)) (λ e. pause (err e))

  -- A call of another action that is not awaited; its rejection goes nowhere.
  abbrev pub spawn : {A : Type 0} → Act S Q R A → Act S Q R (Unit {0})
  spawn m ok err = fork (m (λ _. stop) (λ _. stop)) (ok tt)

  -- `if (b) { m } else { n }`.
  abbrev pub branch : {A : Type 0} → Bool → Act S Q R A → Act S Q R A → Act S Q R A
  branch b m n ok err = test b (m ok err) (n ok err)

  abbrev pub when : Bool → Act S Q R (Unit {0}) → Act S Q R (Unit {0})
  when b m ok err = test b (m ok err) (ok tt)

  -- `try { m } catch (e) { h e }`.
  abbrev pub try_catch : {A : Type 0} → Act S Q R A → (Thrown → Act S Q R A) → Act S Q R A
  try_catch m h ok err = m ok (λ e. h e ok err)

  -- `try { m } finally { f }`, for an `f` that does not throw.
  abbrev pub finally : {A : Type 0} → Act S Q R A → Act S Q R (Unit {0}) → Act S Q R A
  finally m f ok err = m (λ a. f (λ _. ok a) err) (λ e. f (λ _. err e) err)

  -- The action as the page starts it: nobody looks at its promise.
  abbrev pub run : {A : Type 0} → Act S Q R A → Proc S Q R
  run m = m (λ _. stop) (λ _. stop)
