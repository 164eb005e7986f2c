-- ===== src/Admin/Weeks/Laws.antt =====
-- What a week of frontend/src/admin/shared/utils/weekHelpers.ts is.
use giki_wallet.Common.{ℕ, ◌+◌, ◌*◌, ◌/◌, ◌<◌, ◌≤◌, ◌≡◌, ◌↔◌, sym, ap, ◌∙◌, arith, true, ◌&&◌, leb}
use giki_wallet.Admin.Weeks.{LocalDate, get_week_start, get_week_end, is_date_in_week}

-- The start of a week is the Monday on or before the day.
start_day : (d : LocalDate) → (get_week_start d).day ≡ d.day / 7 * 7
unfolding get_week_start
start_day d = ground arith

-- The midnight at which the week with this number begins.
abbrev monday : ℕ → LocalDate
monday week = record { day = week * 7; time = 0 }

start-monday : (d : LocalDate) → get_week_start d ≡ monday (d.day / 7)
unfolding get_week_start
start-monday d = ap (λ n. record { day = n; time = 0 }) (start_day d)

module _ (d t w q : ℕ) (begins : w ≡ q * 7) (within : t < 86400000) where
  same_week :
      (leb (w * 86400000 + 0) (d * 86400000 + t)
          && leb (d * 86400000 + t) ((w + 6) * 86400000 + 86399999))
        ≡ true
      → d / 7 ≡ q
  same_week e =
      let from : w * 86400000 ≤ d * 86400000 + t = ground (arith, e) in
      let to : d * 86400000 + t ≤ (w + 6) * 86400000 + 86399999 = ground (arith, e) in
      omega (arith, from, to, begins, within)

  in_week :
      d / 7 ≡ q
      → (leb (w * 86400000 + 0) (d * 86400000 + t)
          && leb (d * 86400000 + t) ((w + 6) * 86400000 + 86399999))
        ≡ true
  in_week e =
      let from : w * 86400000 ≤ d * 86400000 + t = omega (arith, e, begins) in
      let to : d * 86400000 + t ≤ (w + 6) * 86400000 + 86399999 =
        omega (arith, e, begins, within) in
      ground (arith, from, to)

-- A date is in the week of another exactly if both weeks begin with the same midnight.
pub is_date_in_week_iff :
    (date other : LocalDate)
    → date.time < 86400000
    → (is_date_in_week date (get_week_start other) (get_week_end other) ≡ true)
      ↔ (get_week_start date ≡ get_week_start other)
unfolding is_date_in_week get_week_end get_week_start
is_date_in_week_iff date other within = (
  λ e.
      start-monday date
      ∙ ap monday (
          same_week date.day date.time (get_week_start other).day (other.day / 7) (start_day other)
            within e)
      ∙ sym (start-monday other),
  λ e.
      let days : (get_week_start date).day ≡ (get_week_start other).day = ap (λ x. x.day) e in
      in_week date.day date.time (get_week_start other).day (other.day / 7) (start_day other) within
        (omega (arith, start_day date, start_day other, days)),
)
