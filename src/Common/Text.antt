-- ===== src/Common/Text.antt =====
-- Text as the list of its code points, where the source folds case or searches inside a text.
-- `toUpperCase` is modelled on ASCII letters; other code points are left as they are.
use Prim.Native.Nat.{ℕ, ◌+◌, ◌-◌}
use Prim.Native.Char.{code}
use Prim.Native.String.{String}
use mathlib.Core.Path.{◌≡◌}
use mathlib.Core.Logic.{◌↔◌}
use mathlib.Core.Bool.{Bool, true, false, ◌&&◌, ◌||◌}
use mathlib.Core.List.{List, [], ◌∷◌, map}
use native.Mathlib.Omega.{arith}
use text.Mathlib.Text.{◌==◌}
use giki_wallet.Common.Tests.{leb, nat_eq, if◌then◌else◌}

abbrev pub lower_code : ℕ → ℕ
lower_code k = if leb b'A' k && leb k b'Z' then k + 32 else k

abbrev pub upper_code : ℕ → ℕ
upper_code k = if leb b'a' k && leb k b'z' then k - 32 else k

abbrev pub codes_eq : List ℕ → List ℕ → Bool
codes_eq [] [] = true
codes_eq [] (d ∷ ds) = false
codes_eq (c ∷ cs) [] = false
codes_eq (c ∷ cs) (d ∷ ds) = nat_eq c d && codes_eq cs ds

pub codes_eq_iff : (cs ds : List ℕ) → (codes_eq cs ds ≡ true) ↔ (cs ≡ ds)
codes_eq_iff [] [] = ground arith
codes_eq_iff [] (d ∷ ds) = ground arith
codes_eq_iff (c ∷ cs) [] = ground arith
codes_eq_iff (c ∷ cs) (d ∷ ds) = ground (arith, codes_eq_iff cs ds)

-- The code points of a text, in their order.
abbrev pub codes : String → List ℕ
codes String.[] = []
codes (String.◌∷◌ first others) = let point = code first in point ∷ codes others

-- The white space and line ends that `trim` removes.
abbrev pub is_space : ℕ → Bool
is_space k =
    leb 9 k && leb k 13
    || nat_eq k 32
    || nat_eq k 160
    || nat_eq k 5760
    || leb 8192 k && leb k 8202
    || nat_eq k 8232
    || nat_eq k 8233
    || nat_eq k 8239
    || nat_eq k 8287
    || nat_eq k 12288
    || nat_eq k 65279

-- `s.trimStart()` and `s.trimEnd()`.
abbrev pub trim_start : List ℕ → List ℕ
trim_start [] = []
trim_start (c ∷ cs) = if is_space c then trim_start cs else c ∷ cs

-- A code before what is left of the codes after it.
abbrev pub before_end : ℕ → List ℕ → List ℕ
before_end c [] = if is_space c then [] else c ∷ []
before_end c (d ∷ ds) = c ∷ d ∷ ds

abbrev pub trim_end : List ℕ → List ℕ
trim_end [] = []
trim_end (c ∷ cs) = before_end c (trim_end cs)

-- `s.trim()`.
abbrev pub trim : List ℕ → List ℕ
trim cs = trim_end (trim_start cs)

-- `s.toUpperCase()`.
abbrev pub upper : String → List ℕ
upper s = map upper_code (codes s)

-- `s.toLowerCase()`.
abbrev pub lower : String → List ℕ
lower s = map lower_code (codes s)

abbrev pub is_prefix : List ℕ → List ℕ → Bool
is_prefix [] cs = true
is_prefix (d ∷ ds) [] = false
is_prefix (d ∷ ds) (c ∷ cs) = nat_eq d c && is_prefix ds cs

-- `s.includes(t)`, the searched text last.
abbrev pub includes : List ℕ → List ℕ → Bool
includes ds [] = is_prefix ds []
includes ds (c ∷ cs) = is_prefix ds (c ∷ cs) || includes ds cs

-- `a || b` on texts, where an absent text is the empty one: both are falsy.
abbrev pub str_or : String → String → String
str_or a b = if a == "" then b else a
