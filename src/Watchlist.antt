-- ===== src/Watchlist.antt =====
-- python/src/watchlist/manager.py: the watchlist is brought in line with the members of the index. The
-- fetch of the members and the check that a symbol is still traded are arguments, and so are the
-- methods `upper` and `lower` of texts and their order. The JSON files are values; a dictionary is a
-- list of pairs.
pub mod Symbols
pub mod Diff
pub mod Refresh
mod Examples
use stock_fixer.Prelude.{
  ℕ, suc, ◌/◌, max, Bool, true, false, not, ◌||◌, Option, none, some, List, [], ◌∷◌, ◌++◌, map,
  String, if◌then◌else◌, ltb, length, take, keep, mem_text, lookup, str_eq, discard,
}
use stock_fixer.Prelude.Elem.{is_empty}

-- What Python does with texts: `upper`, `lower`, and `<`.
pub record Texts : Type 0 where
  pub upper : String → String
  pub lower : String → String
  pub before : String → String → Bool

-- What the web answers: the members of a market's index (nothing after a failure), and whether a
-- symbol of a market has had prices lately.
pub record Web : Type 0 where
  pub fetch_index_symbols : String → List String
  pub verify_symbol_active : String → String → Bool

-- `WatchlistDiff`
pub record WatchlistDiff : Type 0 where
  pub market : String
  pub added : List String
  pub removed : List String
  pub removed_unverified : List String
  pub kept : List String
  pub capped : Bool
  pub fetch_failed : Bool

abbrev pub has_changes : WatchlistDiff → Bool
has_changes d = not (is_empty d.added) || not (is_empty d.removed)

-- watchlist.json
abbrev pub Watchlist : Type 0
Watchlist = List (String × List String)

-- An entry of watchlist_audit_log.json: its time, and the parts of the diff of each market.
pub record AuditEntry : Type 0 where
  pub updated_at : ℕ
  pub markets : List (String × WatchlistDiff)

pub record Files : Type 0 where
  pub watchlist : Watchlist
  pub audit_log : List AuditEntry

-- `d[k] = v`
unfoldable pub set_key : {V : Type 0} → String → V → List (String × V) → List (String × V)
set_key k v [] = (k, v) ∷ []
set_key k v ((j, w) ∷ m) = if str_eq j k then (k, v) ∷ m else (j, w) ∷ set_key k v m

abbrev pub or_empty : Option (List String) → List String
or_empty none = []
or_empty (some xs) = xs

-- `max(1, int(n * 0.10))`
abbrev pub max_remove : ℕ → ℕ
max_remove n = max 1 (n / 10)

module _ (texts : Texts) where
  open texts use {upper, lower, before}

  -- A set that is printed in order.
  unfoldable pub insert_sorted : String → List String → List String
  insert_sorted x [] = x ∷ []
  insert_sorted x (y ∷ ys) =
      let rest = insert_sorted x ys in
      if str_eq x y then y ∷ ys else if before x y then x ∷ y ∷ ys else y ∷ rest

  -- `sorted(set(xs))`
  unfoldable pub sort_set : List String → List String
  sort_set [] = []
  sort_set (x ∷ xs) = insert_sorted x (sort_set xs)

  module _ (web : Web) where
    open web use {fetch_index_symbols, verify_symbol_active}

    abbrev pub no_removal : String → List String → List String → WatchlistDiff
    no_removal market added kept = record {
      market = market;
      added = added;
      removed = [];
      removed_unverified = [];
      kept = kept;
      capped = false;
      fetch_failed = false;
    }

    -- From the candidates on.
    unfoldable pub with_removal :
        String → List String → List String → ℕ → List String → WatchlistDiff
    with_removal market added kept n candidates =
        let confirmed = keep (λ s. not (verify_symbol_active s market)) candidates in
        record {
          market = market;
          added = added;
          removed =
              if ltb (max_remove n) (length confirmed)
              then take (max_remove n) confirmed
              else confirmed;
          removed_unverified = keep (λ s. verify_symbol_active s market) candidates;
          kept = kept;
          capped = ltb (max_remove n) (length confirmed);
          fetch_failed = false;
        }

    unfoldable pub diff_watchlist : List String → List String → String → WatchlistDiff
    diff_watchlist current fetched market =
        let current_set = map upper current in
        let fetched_set = map upper fetched in
        let added = sort_set (keep (λ s. not (mem_text s current_set)) fetched_set) in
        let candidates = sort_set (keep (λ s. not (mem_text s fetched_set)) current_set) in
        let kept = sort_set (keep (λ s. mem_text s fetched_set) current_set) in
        if is_empty candidates
        then no_removal market added kept
        else with_removal market added kept (length current) candidates

    -- `current_set.add(sym.upper())` and `current_set.discard(sym.upper())` in turn
    unfoldable pub discard_all : List String → List String → List String
    discard_all [] set = set
    discard_all (s ∷ ss) set = discard_all ss (discard (upper s) set)

    unfoldable pub updated_list : List String → WatchlistDiff → List String
    updated_list current diff =
        sort_set (discard_all diff.removed (map upper diff.added ++ map upper current))

    -- `MARKET_KEY_MAP` sends "us" and "jp" to themselves.
    abbrev pub market_key : String → String
    market_key market = lower market

    -- One round of the loop of `apply_watchlist_update`.
    unfoldable pub apply_diff : WatchlistDiff → Watchlist → Watchlist
    apply_diff diff watchlist =
        if has_changes diff
        then (let key = market_key diff.market in
            set_key key (updated_list (or_empty (lookup key watchlist)) diff) watchlist)
        else watchlist

    unfoldable pub apply_diffs : List WatchlistDiff → Watchlist → Watchlist
    apply_diffs [] watchlist = watchlist
    apply_diffs (d ∷ ds) watchlist = apply_diffs ds (apply_diff d watchlist)

    unfoldable pub audit_markets : List WatchlistDiff → List (String × WatchlistDiff)
    audit_markets [] = []
    audit_markets (d ∷ ds) = (d.market, d) ∷ audit_markets ds

    unfoldable pub apply_watchlist_update : List WatchlistDiff → ℕ → Files → Files
    apply_watchlist_update diffs now files = record files {
      watchlist = apply_diffs diffs files.watchlist;
      audit_log =
          files.audit_log ++ record { updated_at = now; markets = audit_markets diffs } ∷ [];
    }

    abbrev pub failed_fetch : String → WatchlistDiff
    failed_fetch market = record {
      market = market;
      added = [];
      removed = [];
      removed_unverified = [];
      kept = [];
      capped = false;
      fetch_failed = true;
    }

    -- The diff of one market: none is made of a failed fetch.
    unfoldable pub market_diff : Watchlist → String → WatchlistDiff
    market_diff watchlist market =
        let fetched = fetch_index_symbols market in
        if is_empty fetched
        then failed_fetch market
        else diff_watchlist (or_empty (lookup (market_key market) watchlist)) fetched market

    unfoldable pub run_watchlist_refresh : List String → ℕ → Files → Files × List WatchlistDiff
    run_watchlist_refresh markets now files =
        let diffs = map (market_diff files.watchlist) markets in
        let changed = keep has_changes diffs in
        if is_empty changed
        then (files, diffs)
        else (apply_watchlist_update changed now files, diffs)

    -- `failed_markets`
    unfoldable pub failed_markets : List WatchlistDiff → List String
    failed_markets [] = []
    failed_markets (d ∷ ds) =
        let rest = failed_markets ds in if d.fetch_failed then d.market ∷ rest else rest
