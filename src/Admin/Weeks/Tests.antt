-- ===== src/Admin/Weeks/Tests.antt =====
-- A Sunday and the Monday after it.
use giki_wallet.Common.{◌≡◌, ◌↔◌, refl, arith, true, false}
use giki_wallet.Admin.Weeks.{LocalDate, get_week_start, get_week_end, is_date_in_week}
use giki_wallet.Admin.Weeks.Laws.{is_date_in_week_iff}

abbrev sunday_noon : LocalDate
sunday_noon = record { day = 13; time = 43200000 }

abbrev next_monday : LocalDate
next_monday = record { day = 14; time = 0 }

sunday_ends_its_week : get_week_start sunday_noon ≡ record { day = 7; time = 0 }
unfolding get_week_start
sunday_ends_its_week = refl

monday_is_of_the_next :
    is_date_in_week next_monday (get_week_start sunday_noon) (get_week_end sunday_noon) ≡ false
unfolding is_date_in_week get_week_start get_week_end
monday_is_of_the_next = refl

is_date_in_week_iff_example :
    (is_date_in_week sunday_noon (get_week_start sunday_noon) (get_week_end sunday_noon) ≡ true)
    ↔ (get_week_start sunday_noon ≡ get_week_start sunday_noon)
is_date_in_week_iff_example = is_date_in_week_iff sunday_noon sunday_noon (omega arith)
