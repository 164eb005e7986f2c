-- ===== src/Admin/Paging/Debouncing.antt =====
-- The hook of frontend/src/shared/hooks/useDebounce.ts as a state machine: its value, the value that
-- it passes on, and the milliseconds left of its timeout.
use giki_wallet.Common.{
  false, ℕ, zero, suc, ◌-◌, ◌≤◌, ◌≡◌, refl, leb, if◌then◌else◌, if-case, Bool-cases, inl, inr, ◌∙◌,
  Option, none, some, List, [], ◌∷◌, arith,
}

pub record Debounced (A : Type 0) : Type 0 where
  pub value : A
  pub debounced_value : A
  pub timeout : Option ℕ

module _ {A : Type 0} (delay : ℕ) where
  -- The first rendering.
  abbrev pub use_debounce : A → Debounced A
  use_debounce a = record { value = a; debounced_value = a; timeout = some delay }

  -- Rendered with another value: the effect clears its timeout and sets another.
  unfoldable pub rendered : A → Debounced A → Debounced A
  rendered a s = record s { value = a; timeout = some delay }

-- A millisecond of a timeout goes by.
abbrev elapsed : {A : Type 0} → Option ℕ → Debounced A → Debounced A
elapsed none s = s
elapsed (some left) s =
    if leb left 1
    then record s { debounced_value = s.value; timeout = none }
    else record s { timeout = some (left - 1) }

unfoldable pub pass : {A : Type 0} → Debounced A → Debounced A
pass s = elapsed s.timeout s

pub data Change (A : Type 0) : Type 0 where
  typed : A → Change A
  ticked : Change A

abbrev pub change : {A : Type 0} → ℕ → Debounced A → Change A → Debounced A
change delay s (typed a) = rendered delay a s
change delay s ticked = pass s

abbrev pub history : {A : Type 0} → ℕ → Debounced A → List (Change A) → Debounced A
history delay s [] = s
history delay s (c ∷ rest) = history delay (change delay s c) rest

-- Milliseconds in which nothing is typed.
unfoldable pub wait : {A : Type 0} → ℕ → Debounced A → Debounced A
wait zero s = s
wait (suc n) s = wait n (pass s)

-- No more than so many milliseconds are left, and where none are, the value has been passed on.
abbrev IsPending : {A : Type 0} → ℕ → A → A → Option ℕ → Type 0
IsPending most value passed none = passed ≡ value
IsPending most value passed (some left) = (1 ≤ left) × (left ≤ most)

abbrev IsOnTime : {A : Type 0} → ℕ → Debounced A → Type 0
IsOnTime most s = IsPending most s.value s.debounced_value s.timeout

leb-more : (left : ℕ) → leb left 1 ≡ false → 2 ≤ left
leb-more left f = ground arith

module _ {A : Type 0} where
  elapsed-IsOnTime :
      (most : ℕ) (o : Option ℕ) (s : Debounced A)
      → IsPending (suc most) s.value s.debounced_value o
      → s.timeout ≡ o
      → IsOnTime most (elapsed o s)
  elapsed-IsOnTime most none s h e = rw e h
  elapsed-IsOnTime most (some left) s h e = elim (Bool-cases (leb left 1)) [
    | inl t ↦ rw t refl
    | inr f ↦ let more : 2 ≤ left = leb-more left f in rw f (omega arith, omega arith)
  ]

  pass-IsOnTime : (most : ℕ) (s : Debounced A) → IsOnTime (suc most) s → IsOnTime most (pass s)
  unfolding pass
  pass-IsOnTime most s h = elapsed-IsOnTime most s.timeout s h refl

  elapsed-value : (o : Option ℕ) (s : Debounced A) → (elapsed o s).value ≡ s.value
  elapsed-value none s = refl
  elapsed-value (some left) s =
      if-case (λ (d : Debounced A). d.value ≡ s.value) (leb left 1) refl refl

  pass-value : (s : Debounced A) → (pass s).value ≡ s.value
  unfolding pass
  pass-value s = elapsed-value s.timeout s

  settled : (v p : A) (o : Option ℕ) → IsPending 0 v p o → p ≡ v
  settled v p none h = h
  settled v p (some left) (low, high) = absurd (omega arith)

  wait-passes : (n : ℕ) (s : Debounced A) → IsOnTime n s → (wait n s).debounced_value ≡ s.value
  unfolding wait
  wait-passes zero s h = settled s.value s.debounced_value s.timeout h
  wait-passes (suc n) s h = wait-passes n (pass s) (pass-IsOnTime n s h) ∙ pass-value s

module _ {A : Type 0} (delay : ℕ) (positive : 1 ≤ delay) where
  widened : (o : Option ℕ) (v p : A) (n m : ℕ) → n ≤ m → IsPending n v p o → IsPending m v p o
  widened none v p n m le h = h
  widened (some left) v p n m le (low, high) = (low, omega arith)

  change-IsOnTime :
      (s : Debounced A) (c : Change A) → IsOnTime delay s → IsOnTime delay (change delay s c)
  unfolding rendered
  change-IsOnTime s (typed a) h = (positive, omega arith)
  change-IsOnTime s ticked h =
      pass-IsOnTime delay s
        (widened s.timeout s.value s.debounced_value delay (suc delay) (omega arith) h)

  history-IsOnTime :
      (s : Debounced A) (l : List (Change A))
      → IsOnTime delay s
      → IsOnTime delay (history delay s l)
  history-IsOnTime s [] h = h
  history-IsOnTime s (c ∷ rest) h = history-IsOnTime (change delay s c) rest (change-IsOnTime s c h)

  -- Whatever is typed, and however quickly: once nothing is typed for the delay, the value that is
  -- passed on is the last that was typed.
  pub history-passed_on :
      (a : A) (l : List (Change A))
      → (wait delay (history delay (use_debounce delay a) l)).debounced_value
        ≡ (history delay (use_debounce delay a) l).value
  history-passed_on a l =
      wait-passes delay _ (history-IsOnTime (use_debounce delay a) l (positive, omega arith))
