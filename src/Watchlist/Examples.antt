-- ===== src/Watchlist/Examples.antt =====
-- A list of two American symbols, one of which has left the index and is no longer traded.
use stock_fixer.Prelude.{
  ◌≡◌, ◌≤◌, refl, inl, arith, eq_iff, true, false, [], ◌∷◌, String, length, mem_text, str_eq,
  if◌then◌else◌,
}
use stock_fixer.Prelude.Elem.{is_empty}
use stock_fixer.Watchlist.{Texts, Web, Files, max_remove, market_diff, run_watchlist_refresh}
use stock_fixer.Watchlist.Diff.{has, target, list_of}
use stock_fixer.Watchlist.Refresh.{run_watchlist_refresh-target}

abbrev plain : Texts
plain = record {
  upper = λ s. if str_eq s "aapl" then "AAPL" else s;
  lower = λ s. s;
  before = λ s t. str_eq s "AAPL";
}

abbrev some_web : Web
some_web = record {
  fetch_index_symbols = λ market. if str_eq market "us" then "AAPL" ∷ "NVDA" ∷ [] else [];
  verify_symbol_active = λ s market. false;
}

upper_twice : (s : String) → plain.upper (plain.upper s) ≡ plain.upper s
upper_twice s = ground (arith, eq_iff s "aapl")

abbrev some_files : Files
some_files = record {
  watchlist = ("us", "aapl" ∷ "TWTR" ∷ []) ∷ ("jp", "7203" ∷ []) ∷ [];
  audit_log = [];
}

run_watchlist_refresh-target_example :
    let new = (run_watchlist_refresh plain some_web ("us" ∷ "jp" ∷ []) 5 some_files).0.watchlist in
    let current = list_of plain some_web some_files.watchlist "us" in
    let fetched = some_web.fetch_index_symbols "us" in
    let removed = (market_diff plain some_web some_files.watchlist "us").removed in
    (is_empty fetched ≡ true → list_of plain some_web new "us" ≡ current)
    × (is_empty fetched ≡ false
        → ((s : String)
            → has plain (list_of plain some_web new "us") s
              ≡ target plain current fetched removed s)
          × ((s : String)
              → mem_text s removed ≡ true
              → (has plain current s ≡ true)
                × (has plain fetched s ≡ false)
                × (some_web.verify_symbol_active s "us" ≡ false))
          × (length removed ≤ max_remove (length current)))
run_watchlist_refresh-target_example =
    run_watchlist_refresh-target plain some_web upper_twice ("us" ∷ "jp" ∷ []) 5 some_files "us"
      (inl refl) ((refl, tt), (tt, tt))
