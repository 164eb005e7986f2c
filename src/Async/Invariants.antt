-- ===== src/Async/Invariants.antt =====
-- Invariants of a store over every interleaving of its actions.
use giki_wallet.Common.{
  ◌≡◌, ◌++◌, List, [], ◌∷◌, All, All-append, All-left, All-right, refl, true, false,
}
use giki_wallet.Async.{
  Reply, Proc, stop, look, update, test, call, pause, fork, advance, Config, Page, settle, Turn,
  start, answer, wake, outside, Reach, here, next,
}

module _ {S : Type 0} {Q : Type 0} {R : Q → Type 0} (Inv : S → Type 0) where
  -- Run from `s`, the action finds `K` at its first await or at its end, and from then on, with the
  -- invariant at each later turn, re-establishes it before every await.
  abbrev pub Keeps : Proc S Q R → S → (S → Type 0) → Type 0
  Keeps stop s K = K s
  Keeps (look f) s K = Keeps (f s) s K
  Keeps (update g p) s K = Keeps p (g s) K
  Keeps (test b p q) s K = (b ≡ true → Keeps p s K) × (b ≡ false → Keeps q s K)
  Keeps (call q k) s K = K s × ((a : Reply (R q)) (s' : S) → Inv s' → Keeps (k a) s' Inv)
  Keeps (pause p) s K = K s × ((s' : S) → Inv s' → Keeps p s' Inv)
  Keeps (fork p k) s K = Keeps p s (λ s'. Keeps k s' K)

  -- A waiting action that keeps the invariant when its turn comes.
  abbrev IsSafe : Proc S Q R → Type 0
  IsSafe p = (s : S) → Inv s → Keeps p s Inv

  advance-Keeps :
      (p : Proc S Q R) (s : S) (K : S → Type 0)
      → Keeps p s K
      → K (advance p s).0 × All IsSafe (advance p s).1
  unfolding advance
  advance-Keeps stop s K h = (h, tt)
  advance-Keeps (look f) s K h = advance-Keeps (f s) s K h
  advance-Keeps (update g p) s K h = advance-Keeps p (g s) K h
  advance-Keeps (test true p q) s K h = advance-Keeps p s K (h.0 refl)
  advance-Keeps (test false p q) s K h = advance-Keeps q s K (h.1 refl)
  advance-Keeps (call q k) s K h = (h.0, (λ s' i. (i, h.1), tt))
  advance-Keeps (pause p) s K h = (h.0, (λ s' i. (i, h.1), tt))
  advance-Keeps (fork p k) s K h =
      let (h1, safe1) = advance-Keeps p s _ h in
      let (h2, safe2) = advance-Keeps k (advance p s).0 K h1 in
      (h2, All-append IsSafe (advance p s).1 (advance k (advance p s).0).1 safe1 safe2)

  abbrev IsGood : Config S Q R → Type 0
  IsGood c = Inv c.store × All IsSafe c.waiting

  settle-IsGood :
      (p : Proc S Q R) (s : S) (others : List (Proc S Q R))
      → Keeps p s Inv
      → All IsSafe others
      → IsGood (settle p s others)
  settle-IsGood p s others h k =
      let (i, safe) = advance-Keeps p s Inv h in (i, All-append IsSafe _ others safe k)

  module _ (page : Page S Q R)
      (starts : (p : Proc S Q R) → page.Starts p → (s : S) → Inv s → Keeps p s Inv)
      (outsides : (s s' : S) → page.Outside s s' → Inv s → Inv s') where
    Turn-IsGood : {c d : Config S Q R} → Turn page c d → IsGood c → IsGood d
    Turn-IsGood {c} (start p e) (i, safe) =
        settle-IsGood p c.store c.waiting (starts p e c.store i) safe
    Turn-IsGood {c} (answer l r q k a e) (i, safe) =
        let safe' = rw e at safe in
        let here_safe = All-right IsSafe l (call q k ∷ r) safe' in
        settle-IsGood (k a) c.store (l ++ r) ((here_safe.0 c.store i).1 a c.store i)
          (All-append IsSafe l r (All-left IsSafe l (call q k ∷ r) safe') here_safe.1)
    Turn-IsGood {c} (wake l r p e) (i, safe) =
        let safe' = rw e at safe in
        let here_safe = All-right IsSafe l (pause p ∷ r) safe' in
        settle-IsGood p c.store (l ++ r) ((here_safe.0 c.store i).1 c.store i)
          (All-append IsSafe l r (All-left IsSafe l (pause p ∷ r) safe') here_safe.1)
    Turn-IsGood {c} (outside s e) (i, safe) = (outsides c.store s e i, safe)

    Reach-IsGood : {c d : Config S Q R} → Reach page c d → IsGood c → IsGood d
    Reach-IsGood here g = g
    Reach-IsGood (next r t) g = Turn-IsGood t (Reach-IsGood r g)

    -- A store that begins with the invariant and nothing waiting has it after every turn.
    pub Reach-Inv :
        {s : S} {d : Config S Q R}
        → Reach page (record { store = s; waiting = [] }) d
        → Inv s
        → Inv d.store
    Reach-Inv r i = (Reach-IsGood r (i, tt)).0
