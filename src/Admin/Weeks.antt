-- ===== src/Admin/Weeks.antt =====
-- frontend/src/admin/shared/utils/weekHelpers.ts: the weeks, from Monday to Sunday, by which the
-- administrators choose.
--
-- A date is a local calendar day and the milliseconds since its midnight. Days are counted from a
-- Monday so far back that no date comes before it, and a day always has 24 hours, as in Pakistan. The
-- functions that only format a date are left out.
pub mod Laws
mod Tests
use giki_wallet.Common.{
  zero, suc, ℕ, ◌+◌, ◌-◌, ◌*◌, ◌%◌, Bool, ◌&&◌, List, [], ◌∷◌, leb, nat_eq, if◌then◌else◌,
}

pub record LocalDate : Type 0 where
  pub day : ℕ
  pub time : ℕ

-- `date.getTime()`, up to where the days are counted from.
abbrev pub get_time : LocalDate → ℕ
get_time d = d.day * 86400000 + d.time

-- `date.getDay()`: 0 is Sunday.
abbrev pub get_day : LocalDate → ℕ
get_day d = (d.day + 1) % 7

-- `d.getDate() - day + (day === 0 ? -6 : 1)`, counted in days.
unfoldable pub get_week_start : LocalDate → LocalDate
get_week_start d =
    let dow = get_day d in
    record { day = if nat_eq dow 0 then d.day - 6 else d.day + 1 - dow; time = 0 }

unfoldable pub get_week_end : LocalDate → LocalDate
unfolding get_week_start
get_week_end d = record { day = (get_week_start d).day + 6; time = 86399999 }

abbrev pub days_from : LocalDate → ℕ → ℕ → List LocalDate
days_from first i zero = []
days_from first i (suc n) =
    let later = days_from first (i + 1) n in record first { day = first.day + i } ∷ later

unfoldable pub get_week_dates : LocalDate → List LocalDate
unfolding get_week_start
get_week_dates d = days_from (get_week_start d) 0 7

unfoldable pub is_date_in_week : LocalDate → LocalDate → LocalDate → Bool
is_date_in_week date week_start week_end =
    leb (get_time week_start) (get_time date) && leb (get_time date) (get_time week_end)
