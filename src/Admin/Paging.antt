-- ===== src/Admin/Paging.antt =====
-- frontend/src/admin/shared/components/PaginationControl.tsx with the numbers of pages that the pages
-- of modules compute for it, and frontend/src/shared/hooks/useDebounce.ts in `Debouncing`.
mod Debouncing
mod Tests
use giki_wallet.Common.{
  ℕ, ◌+◌, ◌-◌, ◌*◌, ◌/◌, ◌≤◌, ◌≡◌, refl, ◌↔◌, ◌⊎◌, inl, inr, Bool, true, false, leb, Bool-cases,
  Option, none, some, arith, if◌then◌else◌,
}

-- `Math.ceil(total / pageSize)`.
unfoldable pub total_pages : ℕ → ℕ → ℕ
total_pages page_size total = (total + (page_size - 1)) / page_size

-- The buttons of the control.
pub data Turning : Type 0 where
  previous next : Turning

unfoldable pub is_disabled : Turning → ℕ → ℕ → Bool
is_disabled previous current pages = leb current 1
is_disabled next current pages = leb pages current

abbrev pub neighbour : Turning → ℕ → ℕ
neighbour previous current = current - 1
neighbour next current = current + 1

-- A click; a disabled button does nothing.
unfoldable pub on_click : Turning → ℕ → ℕ → Option ℕ
on_click t current pages = if is_disabled t current pages then none else some (neighbour t current)

-- Pages of a hundred are enough for the items if and only if there are at least as many as are
-- computed.
total_pages-IsLeast : (total pages : ℕ) → (total ≤ pages * 100) ↔ (total_pages 100 total ≤ pages)
unfolding total_pages
total_pages-IsLeast total pages = (λ h. omega arith, λ h. omega arith)

-- From a page that is there, a click leads to a page that is there.
abbrev IsThere : ℕ → ℕ → Type 0
IsThere pages p = (1 ≤ p) × (p ≤ pages)

on_click-IsThere :
    (t : Turning) (current pages p : ℕ)
    → IsThere pages current
    → on_click t current pages ≡ some p
    → IsThere pages p
unfolding on_click is_disabled
on_click-IsThere previous current pages p (low, high) e = ground arith
on_click-IsThere next current pages p (low, high) e = ground arith
