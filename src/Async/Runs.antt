-- ===== src/Async/Runs.antt =====
-- One action alone, with all that the rest of the program does to the store while it awaits.
use giki_wallet.Common.{◌≡◌, refl, Bool, true, false}
use giki_wallet.Errors.{Thrown}
use giki_wallet.Async.Act.{when_settled}
use giki_wallet.Async.{
  Reply, fulfilled, rejected, Proc, stop, look, update, test, call, pause, fork, advance,
}

-- What an action finds: the reply to each request, the changes made to the store before the reply
-- comes, and those made while it gives up its turn.
pub record World (S : Type 0) (Q : Type 0) (R : Q → Type 0) : Type 0 where
  pub reply : (q : Q) → Reply (R q)
  pub during : Q → S → S
  pub between : S → S

module _ {S : Type 0} {Q : Type 0} {R : Q → Type 0} (w : World S Q R) where
  -- The store when the action has returned. Of a forked action it runs the part before its first
  -- await; the rest is among the changes of `during` and `between`.
  unfoldable pub execute : Proc S Q R → S → S
  unfolding advance
  execute stop s = s
  execute (look f) s = execute (f s) s
  execute (update g p) s = execute p (g s)
  execute (test b p q) s = elim b [ true ↦ execute p s | false ↦ execute q s ]
  execute (call q k) s = execute (k (w.reply q)) (w.during q s)
  execute (pause p) s = execute p (w.between s)
  execute (fork p k) s = execute k (advance p s).0

-- A proof, step by step, that the action run from a state ends with `P`.
pub data Ends {S : Type 0} {Q : Type 0} {R : Q → Type 0} (w : World S Q R) (P : S → Type 0)
    : Proc S Q R → S → Type 0 where
  ended : {s : S} → P s → Ends w P stop s
  read : {f : S → Proc S Q R} {s : S} → Ends w P (f s) s → Ends w P (look f) s
  changed : {g : S → S} {p : Proc S Q R} {s : S} → Ends w P p (g s) → Ends w P (update g p) s
  either :
      {b : Bool} {p q : Proc S Q R} {s : S}
      → (b ≡ true → Ends w P p s)
      → (b ≡ false → Ends w P q s)
      → Ends w P (test b p q) s
  replied :
      {q : Q} {k : Reply (R q) → Proc S Q R} {s : S}
      → Ends w P (k (w.reply q)) (w.during q s)
      → Ends w P (call q k) s
  resumed : {p : Proc S Q R} {s : S} → Ends w P p (w.between s) → Ends w P (pause p) s
  spawned : {p k : Proc S Q R} {s : S} → Ends w P k (advance p s).0 → Ends w P (fork p k) s

module _ {S : Type 0} {Q : Type 0} {R : Q → Type 0} {w : World S Q R} {P : S → Type 0} where
  pub execute-Ends : {p : Proc S Q R} {s : S} → Ends w P p s → P (execute w p s)
  unfolding execute
  execute-Ends (ended h) = h
  execute-Ends (read h) = execute-Ends h
  execute-Ends (changed h) = execute-Ends h
  execute-Ends (either {b = true} h k) = execute-Ends (h refl)
  execute-Ends (either {b = false} h k) = execute-Ends (k refl)
  execute-Ends (replied h) = execute-Ends h
  execute-Ends (resumed h) = execute-Ends h
  execute-Ends (spawned h) = execute-Ends h

  pub Ends-execute : (p : Proc S Q R) (s : S) → P (execute w p s) → Ends w P p s
  unfolding execute
  Ends-execute stop s h = ended h
  Ends-execute (look f) s h = read (Ends-execute (f s) s h)
  Ends-execute (update g p) s h = changed (Ends-execute p (g s) h)
  Ends-execute (test true p q) s h = either (λ _. Ends-execute p s h) (λ e. cc)
  Ends-execute (test false p q) s h = either (λ e. cc) (λ _. Ends-execute q s h)
  Ends-execute (call q k) s h = replied (Ends-execute (k (w.reply q)) (w.during q s) h)
  Ends-execute (pause p) s h = resumed (Ends-execute p (w.between s) h)
  Ends-execute (fork p k) s h = spawned (Ends-execute k (advance p s).0 h)

  module _ {q : Q} {ok : R q → Proc S Q R} {err : Thrown → Proc S Q R} {s : S} where
    pub got :
        {a : R q}
        → w.reply q ≡ fulfilled a
        → Ends w P (ok a) (w.during q s)
        → Ends w P (call q (when_settled ok err)) s
    got e h = replied {k = when_settled ok err} (rw e h)

    pub failed :
        {e : Thrown}
        → w.reply q ≡ rejected e
        → Ends w P (err e) (w.during q s)
        → Ends w P (call q (when_settled ok err)) s
    failed e h = replied {k = when_settled ok err} (rw e h)

    -- Whatever the reply is.
    pub either_reply :
        ((a : R q) → Ends w P (ok a) (w.during q s))
        → ((e : Thrown) → Ends w P (err e) (w.during q s))
        → Ends w P (call q (when_settled ok err)) s
    either_reply h k = replied {k = when_settled ok err} (split (w.reply q))
      where
        split : (r : Reply (R q)) → Ends w P (when_settled ok err r) (w.during q s)
        split (fulfilled a) = h a
        split (rejected e) = k e
