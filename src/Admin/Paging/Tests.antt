-- ===== src/Admin/Paging/Tests.antt =====
-- Pages of a hundred.
use giki_wallet.Common.{◌≡◌, refl, none, List, [], ◌∷◌, String, arith}
use giki_wallet.Admin.Paging.{total_pages, on_click, is_disabled, next}
use giki_wallet.Admin.Paging.Debouncing.{
  use_debounce, rendered, Change, typed, history, wait, history-passed_on,
}

two_pages : total_pages 100 101 ≡ 2
unfolding total_pages
two_pages = refl

last_page_stays : on_click next 2 2 ≡ none
unfolding on_click is_disabled
last_page_stays = refl

abbrev first : String
first = ""

abbrev letters : List (Change String)
letters = typed "a" ∷ typed "al" ∷ []

-- Half a second after the last of two letters, typed at once.
last_letters_pass : (wait 500 (history 500 (use_debounce 500 first) letters)).debounced_value ≡ "al"
unfolding rendered
last_letters_pass = history-passed_on 500 (omega arith) first letters
