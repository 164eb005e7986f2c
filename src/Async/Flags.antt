-- ===== src/Async/Flags.antt =====
-- A Boolean of the store that actions raise while they work, such as `loading`: when is it lowered?
use giki_wallet.Common.{
  ◌≡◌, ◌++◌, List, [], ◌∷◌, Bool, true, false, ◌⊎◌, inl, inr, All, All-append, All-left, All-right,
  Bool-cases, sym, refl, ◌∙◌, Any, Any-left, Any-right, Any-append,
}
use giki_wallet.Async.{
  Reply, Proc, stop, look, update, test, call, pause, fork, advance, Config, Page, settle, Turn,
  start, answer, wake, outside, Reach, here, next,
}

-- Why the flag may be up after a turn, if the turn's action does not owe.
abbrev WasUp : {S : Type 0} → (S → Bool) → Bool → S → Type 0
WasUp flag true s = ⊥
WasUp flag false s = flag s ≡ true

module _ {S : Type 0} {Q : Type 0} {R : Q → Type 0} (flag : S → Bool) where
  -- Run from `s`, the action never raises the flag unless it owes that the flag is lowered later; an
  -- action that owes cannot end. It may begin to owe at any change, and is quit where it lowers the
  -- flag.
  pub data Pays : Bool → Proc S Q R → S → Type 0 where
    stopped : {s : S} → Pays false stop s
    looked : {owes : Bool} {f : S → Proc S Q R} {s : S} → Pays owes (f s) s → Pays owes (look f) s
    kept :
        {owes : Bool} {g : S → S} {p : Proc S Q R} {s : S}
        → flag (g s) ≡ flag s
        → Pays owes p (g s)
        → Pays owes (update g p) s
    raised :
        {owes : Bool} {g : S → S} {p : Proc S Q R} {s : S}
        → Pays true p (g s)
        → Pays owes (update g p) s
    lowered :
        {g : S → S} {p : Proc S Q R} {s : S}
        → flag (g s) ≡ false
        → Pays false p (g s)
        → Pays true (update g p) s
    cleared :
        {owes : Bool} {g : S → S} {p : Proc S Q R} {s : S}
        → flag (g s) ≡ false
        → Pays owes p (g s)
        → Pays owes (update g p) s
    tested :
        {owes : Bool} {b : Bool} {p q : Proc S Q R} {s : S}
        → (b ≡ true → Pays owes p s)
        → (b ≡ false → Pays owes q s)
        → Pays owes (test b p q) s
    called :
        {owes : Bool} {q : Q} {k : Reply (R q) → Proc S Q R} {s : S}
        → ((a : Reply (R q)) (s' : S) → Pays owes (k a) s')
        → Pays owes (call q k) s
    paused :
        {owes : Bool} {p : Proc S Q R} {s : S} → ((s' : S) → Pays owes p s') → Pays owes (pause p) s
    forked :
        {owes : Bool} {p k : Proc S Q R} {s : S}
        → Pays false p s
        → Pays owes k (advance p s).0
        → Pays owes (fork p k) s

  abbrev Owes : Proc S Q R → Type 0
  Owes p = (s : S) → Pays true p s

  abbrev IsKnown : Proc S Q R → Type 0
  IsKnown p = Owes p ⊎ ((s : S) → Pays false p s)

  abbrev Explained : Bool → S → S → List (Proc S Q R) → Type 0
  Explained owes s s' ts = flag s' ≡ true → WasUp flag owes s ⊎ Any Owes ts

  Explained-fork :
      (owes : Bool) (s s1 s2 : S) (ts us : List (Proc S Q R))
      → Explained false s s1 ts
      → Explained owes s1 s2 us
      → Explained owes s s2 (ts ++ us)
  Explained-fork true s s1 s2 ts us h k up = elim (k up) [
    | inl was ↦ absurd was
    | inr owing ↦ inr (Any-right Owes ts us owing)
  ]
  Explained-fork false s s1 s2 ts us h k up = elim (k up) [
    | inl was ↦ elim (h was) [ inl old ↦ inl old | inr owing ↦ inr (Any-left Owes ts us owing) ]
    | inr owing ↦ inr (Any-right Owes ts us owing)
  ]

  advance-Pays :
      (owes : Bool) (p : Proc S Q R) (s : S)
      → Pays owes p s
      → All IsKnown (advance p s).1 × Explained owes s (advance p s).0 (advance p s).1
  unfolding advance
  advance-Pays _ _ s stopped = (tt, λ up. inl up)
  advance-Pays owes _ s (looked h) = advance-Pays owes _ s h
  advance-Pays true _ s (kept {g} {p} e h) = advance-Pays true p (g s) h
  advance-Pays false _ s (kept {g} {p} e h) =
      let (known, why) = advance-Pays false p (g s) h in
      (known, λ up. elim (why up) [ inl was ↦ inl (sym e ∙ was) | inr owing ↦ inr owing ])
  advance-Pays true _ s (raised {g} {p} h) = advance-Pays true p (g s) h
  advance-Pays false _ s (raised {g} {p} h) =
      let (known, why) = advance-Pays true p (g s) h in
      (known, λ up. elim (why up) [ inl was ↦ absurd was | inr owing ↦ inr owing ])
  advance-Pays _ _ s (lowered {g} {p} e h) =
      let (known, why) = advance-Pays false p (g s) h in
      (known, λ up. elim (why up) [ inl was ↦ cc | inr owing ↦ inr owing ])
  advance-Pays true _ s (cleared {g} {p} e h) = advance-Pays true p (g s) h
  advance-Pays false _ s (cleared {g} {p} e h) =
      let (known, why) = advance-Pays false p (g s) h in
      (known, λ up. elim (why up) [ inl was ↦ cc | inr owing ↦ inr owing ])
  advance-Pays owes _ s (tested {b = true} h k) = advance-Pays owes _ s (h refl)
  advance-Pays owes _ s (tested {b = false} h k) = advance-Pays owes _ s (k refl)
  advance-Pays true _ s (called rest) =
      ((inl (λ _. called rest), tt), λ up. inr (inl (λ _. called rest)))
  advance-Pays false _ s (called rest) = ((inr (λ _. called rest), tt), λ up. inl up)
  advance-Pays true _ s (paused rest) =
      ((inl (λ _. paused rest), tt), λ up. inr (inl (λ _. paused rest)))
  advance-Pays false _ s (paused rest) = ((inr (λ _. paused rest), tt), λ up. inl up)
  advance-Pays owes _ s (forked {p} {k} h1 h2) =
      let (known1, why1) = advance-Pays false p s h1 in
      let (known2, why2) = advance-Pays owes k (advance p s).0 h2 in
      (
        All-append IsKnown (advance p s).1 (advance k (advance p s).0).1 known1 known2,
        Explained-fork owes s (advance p s).0 _ (advance p s).1 _ why1 why2,
      )

  abbrev IsHonest : Config S Q R → Type 0
  IsHonest c = All IsKnown c.waiting × (flag c.store ≡ true → Any Owes c.waiting)

  -- A turn of an action taken out of `l ++ t ∷ r`.
  turn-IsHonest :
      (owes : Bool) (p : Proc S Q R) (s : S) (l r : List (Proc S Q R))
      → Pays owes p s
      → All IsKnown (l ++ r)
      → (WasUp flag owes s → Any Owes (l ++ r))
      → IsHonest (settle p s (l ++ r))
  turn-IsHonest owes p s l r h known others =
      let (new, why) = advance-Pays owes p s h in
      (
        All-append IsKnown (advance p s).1 (l ++ r) new known,
        λ up. elim (why up) [
          | inl was ↦ Any-right Owes (advance p s).1 (l ++ r) (others was)
          | inr owing ↦ Any-left Owes (advance p s).1 (l ++ r) owing
        ],
      )

  -- The other waiting actions, if the one in the middle does not owe.
  others_owe :
      (l r : List (Proc S Q R)) (t : Proc S Q R)
      → Any Owes (l ++ t ∷ r)
      → Owes t ⊎ Any Owes (l ++ r)
  others_owe l r t h = elim (Any-append Owes l (t ∷ r) h) [
    | inl a ↦ inr (Any-left Owes l r a)
    | inr (inl o) ↦ inl o
    | inr (inr a) ↦ inr (Any-right Owes l r a)
  ]

  IsKnown-rest :
      (l r : List (Proc S Q R)) (t : Proc S Q R) → All IsKnown (l ++ t ∷ r) → All IsKnown (l ++ r)
  IsKnown-rest l r t h =
      All-append IsKnown l r (All-left IsKnown l (t ∷ r) h) (All-right IsKnown l (t ∷ r) h).1

  called-rest :
      {owes : Bool} {q : Q} {k : Reply (R q) → Proc S Q R} {s : S}
      → Pays owes (call q k) s
      → (a : Reply (R q)) → Pays owes (k a) s
  called-rest {s} (called rest) a = rest a s

  paused-rest : {owes : Bool} {p : Proc S Q R} {s : S} → Pays owes (pause p) s → Pays owes p s
  paused-rest {s} (paused rest) = rest s

  -- The waiting action `t` goes on as `p`.
  resume-IsHonest :
      (t p : Proc S Q R) (s : S) (l r : List (Proc S Q R))
      → ((owes : Bool) → ((s : S) → Pays owes t s) → Pays owes p s)
      → All IsKnown (l ++ t ∷ r)
      → (flag s ≡ true → Any Owes (l ++ t ∷ r))
      → IsHonest (settle p s (l ++ r))
  resume-IsHonest t p s l r go known up = elim (All-right IsKnown l (t ∷ r) known).0 [
    | inl owing ↦ turn-IsHonest true p s l r (go true owing) (IsKnown-rest l r t known) absurd
    | inr quiet ↦ elim (Bool-cases (flag s)) [
      | inl e ↦ elim (others_owe l r t (up e)) [
        | inl owing ↦ turn-IsHonest true p s l r (go true owing) (IsKnown-rest l r t known) absurd
        | inr others ↦
            turn-IsHonest false p s l r (go false quiet) (IsKnown-rest l r t known) (λ _. others)
      ]
      | inr e ↦ turn-IsHonest false p s l r (go false quiet) (IsKnown-rest l r t known) (λ was. cc)
    ]
  ]

  module _ (page : Page S Q R)
      (starts : (p : Proc S Q R) → page.Starts p → (s : S) → Pays false p s)
      (outsides : (s s' : S) → page.Outside s s' → flag s' ≡ true → flag s ≡ true) where
    Turn-IsHonest : {c d : Config S Q R} → Turn page c d → IsHonest c → IsHonest d
    Turn-IsHonest {c} (start p e) (known, up) =
        turn-IsHonest false p c.store [] c.waiting (starts p e c.store) known up
    Turn-IsHonest {c} (answer l r q k a e) (known, up) =
        resume-IsHonest (call q k) (k a) c.store l r (λ owes h. called-rest (h c.store) a)
          (rw e at known) (rw e at up)
    Turn-IsHonest {c} (wake l r p e) (known, up) =
        resume-IsHonest (pause p) p c.store l r (λ owes h. paused-rest (h c.store)) (rw e at known)
          (rw e at up)
    Turn-IsHonest {c} (outside s e) (known, up) = (known, λ h. up (outsides c.store s e h))

    Reach-IsHonest : {c d : Config S Q R} → Reach page c d → IsHonest c → IsHonest d
    Reach-IsHonest here g = g
    Reach-IsHonest (next r t) g = Turn-IsHonest t (Reach-IsHonest r g)

    -- Once nothing waits any more, the flag is down.
    pub Reach-lowered :
        {s : S} {d : Config S Q R}
        → Reach page (record { store = s; waiting = [] }) d
        → flag s ≡ false
        → d.waiting ≡ []
        → flag d.store ≡ false
    Reach-lowered {d} r down idle = elim (Bool-cases (flag d.store)) [
      | inl up ↦ absurd (rw idle at ((Reach-IsHonest r (tt, λ h. cc)).1 up))
      | inr e ↦ e
    ]
