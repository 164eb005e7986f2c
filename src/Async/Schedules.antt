-- ===== src/Async/Schedules.antt =====
-- Runs that are given step by step: which action starts, and which request is answered next, by a
-- server that answers every request by what was asked.
use giki_wallet.Common.{◌++◌, List, [], ◌∷◌}
use giki_wallet.Async.{fulfilled, Proc, call, pause, Config, settle}

-- `newest` and `oldest` say which of the waiting requests is answered.
pub data Command (S : Type 0) (Q : Type 0) (R : Q → Type 0) : Type 0 where
  begin : Proc S Q R → Command S Q R
  newest oldest : Command S Q R

module _ {S : Type 0} {Q : Type 0} {R : Q → Type 0} (server : (q : Q) → R q) where
  -- A task goes on, while the others wait: with the answer, if it waits for one.
  abbrev pub goes_on : Proc S Q R → S → List (Proc S Q R) → Config S Q R
  goes_on (call q k) s others = settle (k (fulfilled (server q))) s others
  goes_on (pause p) s others = settle p s others
  goes_on p s others = settle p s others

  abbrev pub newest_goes_on : S → List (Proc S Q R) → Config S Q R
  newest_goes_on s [] = record { store = s; waiting = [] }
  newest_goes_on s (t ∷ rest) = goes_on t s rest

  -- The last task goes on; those before it are collected on the way.
  abbrev pub oldest_goes_on : S → List (Proc S Q R) → List (Proc S Q R) → Config S Q R
  oldest_goes_on s before [] = record { store = s; waiting = before }
  oldest_goes_on s before (t ∷ []) = goes_on t s before
  oldest_goes_on s before (t ∷ u ∷ rest) = oldest_goes_on s (before ++ t ∷ []) (u ∷ rest)

  abbrev pub obey : Command S Q R → Config S Q R → Config S Q R
  obey (begin p) c = settle p c.store c.waiting
  obey newest c = newest_goes_on c.store c.waiting
  obey oldest c = oldest_goes_on c.store [] c.waiting

  abbrev pub play : List (Command S Q R) → Config S Q R → Config S Q R
  play [] c = c
  play (command ∷ later) c = play later (obey command c)
