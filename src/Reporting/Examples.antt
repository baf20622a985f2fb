-- ===== src/Reporting/Examples.antt =====
-- Three equal messages, the third after the first one's ten minutes.
use stock_fixer.Prelude.{ℕ, ◌+◌, ◌≡◌, List, [], ◌∷◌, String}
use stock_fixer.Reporting.Suppressed.{
  waiting, held_back_of, reported_of, cache_after, held_back-reported,
}

abbrev three_calls : List (String × ℕ)
three_calls = ("disk full", 0) ∷ ("disk full", 1_000_000) ∷ ("disk full", 600_000_000) ∷ []

held_back-reported_example :
    waiting "disk full" (cache_after 600_000_000 [] three_calls)
      + reported_of 600_000_000 "disk full" [] three_calls
    ≡ waiting "disk full" [] + held_back_of 600_000_000 "disk full" [] three_calls
held_back-reported_example = held_back-reported 600_000_000 "disk full" [] three_calls
