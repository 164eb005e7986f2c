-- ===== src/Transport/Holds/Timer.antt =====
-- The timer of frontend/src/client/modules/transport/hooks.ts.
use giki_wallet.Common.{
  ℕ, ◌≤◌, ◌≡◌, refl, arith, String, List, [], ◌∷◌, All, Any, inl, inr, ltb, ◌⊎◌, ◌∙◌, sym, ap,
  All-map, Any-map, if-case, Bool-cases,
}
use giki_wallet.Transport.Data.{ActiveHold}
use giki_wallet.Transport.Holds.{sooner, soonest, seconds_left, time_left}

module _ (time_of : String → ℕ) (now : ℕ) where
  -- The seconds of the hold that expires first: no hold has fewer, and one has as many.
  pub record IsLeast (holds : List ActiveHold) (seconds : ℕ) : Type 0 where
    pub bound : All (λ h. seconds ≤ seconds_left time_of now h) holds
    pub reached : Any (λ h. seconds_left time_of now h ≡ seconds) holds

  abbrev expiry : ActiveHold → ℕ
  expiry h = time_of h.expires_at

  sooner-le :
      (h k : ActiveHold)
      → (expiry (sooner time_of h k) ≤ expiry h) × (expiry (sooner time_of h k) ≤ expiry k)
  sooner-le h k = elim (Bool-cases (ltb (expiry h) (expiry k))) [
    | inl t ↦ rw t (omega arith, ground arith)
    | inr f ↦ rw f (ground arith, omega arith)
  ]

  soonest-le :
      (h : ActiveHold) (rest : List ActiveHold)
      → All (λ x. expiry (soonest time_of h rest) ≤ expiry x) (h ∷ rest)
  unfolding soonest
  soonest-le h [] = (omega arith, tt)
  soonest-le h (k ∷ rest) =
      let (first, others) = soonest-le (sooner time_of h k) rest in
      let (before_h, before_k) = sooner-le h k in
      (omega (arith, first, before_h), (omega (arith, first, before_k), others))

  -- One of two is the sooner of them.
  abbrev OneOf : ActiveHold → ActiveHold → ActiveHold → Type 0
  OneOf h k x = (x ≡ h) ⊎ (x ≡ k)

  soonest-Any :
      (h : ActiveHold) (rest : List ActiveHold) → Any (λ x. soonest time_of h rest ≡ x) (h ∷ rest)
  unfolding soonest
  soonest-Any h [] = inl refl
  soonest-Any h (k ∷ rest) =
      join (if-case (OneOf h k) (ltb (expiry h) (expiry k)) (inl refl) (inr refl))
        (soonest-Any (sooner time_of h k) rest)
    where
      join :
          {x s : ActiveHold}
          → OneOf h k x
          → Any (λ y. s ≡ y) (x ∷ rest)
          → Any (λ y. s ≡ y) (h ∷ k ∷ rest)
      join o (inr later) = inr (inr later)
      join (inl e) (inl e') = inl (e' ∙ e)
      join (inr e) (inl e') = inr (inl (e' ∙ e))

  -- The timer shows the seconds that are left of the hold that expires first.
  pub time_left-IsLeast :
      (h : ActiveHold) (rest : List ActiveHold)
      → IsLeast (h ∷ rest) (time_left time_of (h ∷ rest) now)
  unfolding time_left
  time_left-IsLeast h rest = record {
    bound = All-map (λ x le. shorter (soonest time_of h rest) x le) (h ∷ rest) (soonest-le h rest);
    reached =
        Any-map (λ x e. sym (ap (seconds_left time_of now) e)) (h ∷ rest) (soonest-Any h rest);
  }
    where
      shorter :
          (x y : ActiveHold)
          → expiry x ≤ expiry y
          → seconds_left time_of now x ≤ seconds_left time_of now y
      shorter x y le = omega arith
