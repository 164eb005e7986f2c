-- ===== src/Admin/TripForm/Editing.antt =====
-- A trip that is opened in the form of TripCreateForm.tsx and submitted as it stands.
use giki_wallet.Common.{
  ℕ, ◌+◌, ◌-◌, ◌*◌, ◌/◌, ◌<◌, ◌≤◌, ◌≡◌, ◌↔◌, inl, inr, ap, ◌∙◌, sym, arith, false, String, zero,
  suc, leb, leb→le, Bool-cases,
}
use giki_wallet.Common.Integers.{pos}
use giki_wallet.Admin.Trips.{TripResponse}
use giki_wallet.Admin.TripForm.{
  minute_here, difference_in_minutes, minutes_before, negated, CreateTripFormValues,
  apply_source_trip, from_zoned_time, Payload, payload_of,
}

difference_of_minutes :
    (a b : ℕ) → b ≤ a → difference_in_minutes (a * 60000) (b * 60000) ≡ pos (a - b)
unfolding difference_in_minutes
difference_of_minutes a b le = ground (arith, le)

difference_negative :
    (a b : ℕ) → a < b → difference_in_minutes (a * 60000) (b * 60000) ≡ negated (b - a)
unfolding difference_in_minutes
difference_negative a b less =
    let not_before : leb (b * 60000) (a * 60000) ≡ false = ground arith in
    let minutes : (b * 60000 - a * 60000) / 60000 ≡ b - a = omega arith in
    rw not_before (ap negated minutes)

pos-injective : (m n : ℕ) → pos m ≡ pos n → m ≡ n
pos-injective m n e = cc

negated-pos : (k n : ℕ) → 1 ≤ k → negated k ≡ pos n → ⊥
negated-pos zero n h e = absurd (omega arith)
negated-pos (suc k) n h e = cc

-- The difference in minutes of two moments that are read as Pakistan's by clocks that were `a` and `b`
-- minutes ahead: it is the true one exactly if the clocks were as far ahead at both.
resubmitted :
    (d o a b : ℕ)
    → o ≤ d
    → 1020 ≤ o + b
    → 1020 ≤ d + a
    → (difference_in_minutes ((d + a - 1020) * 60000) ((o + b - 1020) * 60000) ≡ pos (d - o))
      ↔ (a ≡ b)
resubmitted d o a b le o_late d_late = (
  λ e. elim (Bool-cases (leb (o + b) (d + a))) [
    | inl t ↦
        let in_order : o + b - 1020 ≤ d + a - 1020 = omega (arith, leb→le _ _ t) in
        let same : d + a - 1020 - (o + b - 1020) ≡ d - o =
          pos-injective _ _ (sym (difference_of_minutes _ _ in_order) ∙ e) in
        omega (arith, leb→le _ _ t)
    | inr f ↦
        let later : d + a < o + b = ground arith in
        let turned : d + a - 1020 < o + b - 1020 = omega arith in
        let apart : 1 ≤ o + b - 1020 - (d + a - 1020) = omega arith in
        absurd (negated-pos _ _ apart (sym (difference_negative _ _ turned) ∙ e))
  ],
  λ same.
      let in_order : o + b - 1020 ≤ d + a - 1020 = omega arith in
      difference_of_minutes _ _ in_order ∙ ap pos (omega arith),
)

-- The moment before a departure that the form finds by the difference in minutes.
before :
    (d o : ℕ)
    → o ≤ d
    → minutes_before (difference_in_minutes (d * 60000) (o * 60000)) (d * 60000) ≡ o * 60000
unfolding minutes_before
before d o le = rw (difference_of_minutes d o le) (omega (arith, le))

module _ (ahead : ℕ → ℕ) (moment_here : ℕ → ℕ → ℕ) where
  -- The clock of the browser, read as Pakistan's.
  read_back :
      (m : ℕ)
      → from_zoned_time ahead moment_here (m * 60000) (minute_here ahead moment_here (m * 60000))
        ≡ (m + ahead (m * 60000) - 1020) * 60000
  read_back m = omega arith

  module _ (now : ℕ) (time_of : String → ℕ) (source : TripResponse) (v : CreateTripFormValues)
      (d o c : ℕ) where
    -- What a trip is sent as that departs, opens and closes at the minutes `d`, `o` and `c`.
    pub record Resubmitted (p : Payload) : Type 0 where
      pub departs : p.departure ≡ (d + ahead (d * 60000) - 1020) * 60000
      pub opens :
          (p.booking_open_offset_minutes ≡ pos (d - o)) ↔ (ahead (d * 60000) ≡ ahead (o * 60000))
      pub closes :
          (p.booking_close_offset_minutes ≡ pos (d - c)) ↔ (ahead (d * 60000) ≡ ahead (c * 60000))

    -- A trip that departs, opens and closes at whole minutes, not so long ago that the clocks began
    -- later, and that does not open or close after its departure, is opened for editing and
    -- submitted as it stands. Wherever the browser is, and whenever its clocks are put forward or
    -- back: the departure is moved by the minutes that the browser's clock is then ahead of
    -- Pakistan's, and the offset of the opening, or of the closing, stays what it was exactly if
    -- that clock is as far ahead then as at the departure.
    pub payload_of-Resubmitted :
        time_of source.departure_time ≡ d * 60000
        → time_of source.booking_opens_at ≡ o * 60000
        → time_of source.booking_closes_at ≡ c * 60000
        → o ≤ d
        → c ≤ d
        → 1020 ≤ d + ahead (d * 60000)
        → 1020 ≤ o + ahead (o * 60000)
        → 1020 ≤ c + ahead (c * 60000)
        → Resubmitted (
            payload_of ahead moment_here
              (apply_source_trip ahead moment_here time_of now source false v))
    unfolding payload_of apply_source_trip
    payload_of-Resubmitted at_d at_o at_c o_le c_le d_late o_late c_late = record {
      departs = rw at_d (read_back d);
      opens =
          rw (at_d, at_o)
            (rw (before d o o_le)
              (rw (read_back d, read_back o) (resubmitted d o _ _ o_le o_late d_late)));
      closes =
          rw (at_d, at_c)
            (rw (before d c c_le)
              (rw (read_back d, read_back c) (resubmitted d c _ _ c_le c_late d_late)));
    }
