-- ===== src/Watchlist/Refresh.antt =====
-- What `run_watchlist_refresh` of python/src/watchlist/manager.py does to the symbols of a market.
use stock_fixer.Prelude.{
  ℕ, ◌≡◌, ◌≤◌, refl, sym, ap, ◌∙◌, inl, inr, arith, true, false, some, List, [], ◌∷◌, map, String,
  if◌then◌else◌, Bool-cases, length, keep, mem_text, lookup, str_eq, eq_iff,
}
use mathlib.Core.Path.{subst}
use stock_fixer.Prelude.Elem.{is_empty, Elem}
use stock_fixer.Watchlist.{
  Texts, Web, WatchlistDiff, Watchlist, Files, has_changes, set_key, or_empty, max_remove,
  with_removal, diff_watchlist, updated_list, market_key, apply_diff, apply_diffs,
  apply_watchlist_update, market_diff, run_watchlist_refresh,
}
use stock_fixer.Watchlist.Symbols.{mem-updated_list, Upper-updated_list, map-Upper}
use stock_fixer.Watchlist.Diff.{has, target, list_of, Careful, Apart, Distinct, diff-Careful}

lookup-set_key :
    {V : Type 0} (k j : String) (v : V) (m : List (String × V))
    → lookup j (set_key k v m) ≡ (if str_eq k j then some v else lookup j m)
unfolding set_key
lookup-set_key k j v [] = refl
lookup-set_key k j v ((i, w) ∷ m) =
    ground (arith, eq_iff i k, eq_iff i j, eq_iff k j, lookup-set_key k j v m)

module _ (texts : Texts) (web : Web)
    (upper_twice : (s : String) → texts.upper (texts.upper s) ≡ texts.upper s) where
  open texts use {upper}

  mem-empty : (xs : List String) (s : String) → is_empty xs ≡ true → mem_text s xs ≡ false
  mem-empty [] s e = refl
  mem-empty (x ∷ xs) s e = cc

  has-updated_list :
      (current fetched : List String) (market : String) (d : WatchlistDiff) (s : String)
      → Careful texts web current fetched market d
      → has texts (updated_list texts web current d) s ≡ target texts current fetched d.removed s
  has-updated_list current fetched market d s c =
      let kept = ap (mem_text s) (
        map-Upper texts (updated_list texts web current d)
          (Upper-updated_list texts web upper_twice current d)) in
      let gone = ap (mem_text s) (map-Upper texts d.removed c.removed_upper) in
      let new = ap (mem_text s) (map-Upper texts d.added c.added_upper) in
      ground (arith, kept, mem-updated_list texts web s current d, gone, new, c.adds s)

  -- Applied alone, a careful diff makes the list what it is to be.
  apply_diff-own :
      (w : Watchlist) (fetched : List String) (d : WatchlistDiff) (s : String)
      → Careful texts web (list_of texts web w d.market) fetched d.market d
      → has texts (list_of texts web (apply_diff texts web d w) d.market) s
        ≡ target texts (list_of texts web w d.market) fetched d.removed s
  unfolding apply_diff
  apply_diff-own w fetched d s c = elim (Bool-cases (has_changes d)) [
    | inl e ↦
        let key = market_key texts web d.market in
        let found =
          lookup-set_key key key (updated_list texts web (list_of texts web w d.market) d) w in
        rw (e, found, (eq_iff key key).1 refl)
          (has-updated_list (list_of texts web w d.market) fetched d.market d s c)
    | inr e ↦ ground (arith, e, c.adds s, mem-empty d.added s, mem-empty d.removed s)
  ]

  apply_diff-target :
      (w : Watchlist) (fetched : List String) (market : String) (d : WatchlistDiff) (s : String)
      → d.market ≡ market
      → Careful texts web (list_of texts web w market) fetched market d
      → has texts (list_of texts web (apply_diff texts web d w) market) s
        ≡ target texts (list_of texts web w market) fetched d.removed s
  apply_diff-target w fetched market d s m =
      subst
        (λ x.
          Careful texts web (list_of texts web w x) fetched x d
          → has texts (list_of texts web (apply_diff texts web d w) x) s
            ≡ target texts (list_of texts web w x) fetched d.removed s)
        m (apply_diff-own w fetched d s)

  -- A diff of another key leaves the list.
  apply_diff-other :
      (w : Watchlist) (market : String) (d : WatchlistDiff)
      → str_eq (market_key texts web d.market) (market_key texts web market) ≡ false
      → list_of texts web (apply_diff texts web d w) market ≡ list_of texts web w market
  unfolding apply_diff
  apply_diff-other w market d n =
      let key = market_key texts web d.market in
      ground (
        arith,
        n,
        lookup-set_key key (market_key texts web market)
            (updated_list texts web (or_empty (lookup key w)) d) w,
      )

  -- The market of a diff, and that a fetch that answers leads to a careful one.
  market_diff-market :
      (w : Watchlist) (market : String) → (market_diff texts web w market).market ≡ market
  unfolding market_diff diff_watchlist with_removal
  market_diff-market w market = ground arith

  market_diff-Careful :
      (w : Watchlist) (market : String)
      → is_empty (web.fetch_index_symbols market) ≡ false
      → Careful texts web
          (list_of texts web w market)
          (web.fetch_index_symbols market)
          market
          (market_diff texts web w market)
  unfolding market_diff
  market_diff-Careful w market n = rw n (
      diff-Careful texts web upper_twice (list_of texts web w market)
        (web.fetch_index_symbols market) market)

  failed-unchanged :
      (w : Watchlist) (market : String)
      → is_empty (web.fetch_index_symbols market) ≡ true
      → has_changes (market_diff texts web w market) ≡ false
  unfolding market_diff
  failed-unchanged w market e = rw e

  Apart-key :
      (x market : String) (ms : List String)
      → Elem market ms
      → Apart texts web x ms
      → str_eq (market_key texts web x) (market_key texts web market) ≡ false
  Apart-key x market [] m a = absurd m
  Apart-key x market (y ∷ ms) (inl q) a =
      let kx = market_key texts web x in
      let ky = market_key texts web y in
      let km = market_key texts web market in
      ground (arith, a.0, eq_iff ky kx, eq_iff kx km, ap (market_key texts web) q)
  Apart-key x market (y ∷ ms) (inr r) a = Apart-key x market ms r a.1

  -- Diffs of other markets leave the list of a market.
  apply_diffs-other :
      (v w : Watchlist) (market : String) (ms : List String)
      → Apart texts web market ms
      → list_of texts web (apply_diffs texts web (map (market_diff texts web v) ms) w) market
        ≡ list_of texts web w market
  unfolding apply_diffs
  apply_diffs-other v w market [] apart = refl
  apply_diffs-other v w market (m ∷ ms) apart =
      let d = market_diff texts web v m in
      let n =
        subst (λ x. str_eq (market_key texts web x) (market_key texts web market) ≡ false)
          (sym (market_diff-market v m)) apart.0 in
      apply_diffs-other v (apply_diff texts web d w) market ms apart.1
      ∙ apply_diff-other w market d n

  apply_diff-unchanged :
      (d : WatchlistDiff) (w : Watchlist) → has_changes d ≡ false → apply_diff texts web d w ≡ w
  unfolding apply_diff
  apply_diff-unchanged d w e = rw e

  -- Keeping the diffs with changes alone makes no difference.
  apply_diffs-keep :
      (ds : List WatchlistDiff) (w : Watchlist)
      → apply_diffs texts web (keep has_changes ds) w ≡ apply_diffs texts web ds w
  unfolding apply_diffs keep
  apply_diffs-keep [] w = refl
  apply_diffs-keep (d ∷ ds) w = elim (Bool-cases (has_changes d)) [
    | inl e ↦ rw e (apply_diffs-keep ds (apply_diff texts web d w))
    | inr e ↦
        rw e
          (apply_diffs-keep ds w ∙ ap (apply_diffs texts web ds) (sym (apply_diff-unchanged d w e)))
  ]

  apply_diffs-none :
      (ds : List WatchlistDiff) (w : Watchlist)
      → is_empty ds ≡ true
      → apply_diffs texts web ds w ≡ w
  unfolding apply_diffs
  apply_diffs-none [] w e = refl
  apply_diffs-none (d ∷ ds) w e = cc

  -- The list of a market after a diff depends on that list alone.
  apply_diff-local :
      (d : WatchlistDiff) (v w : Watchlist) (market : String)
      → d.market ≡ market
      → list_of texts web w market ≡ list_of texts web v market
      → list_of texts web (apply_diff texts web d w) market
        ≡ list_of texts web (apply_diff texts web d v) market
  unfolding apply_diff
  apply_diff-local d v w market m e =
      subst
        (λ x.
          list_of texts web w x ≡ list_of texts web v x
          → list_of texts web (apply_diff texts web d w) x
            ≡ list_of texts web (apply_diff texts web d v) x)
        m own e
    where
      own :
          list_of texts web w d.market ≡ list_of texts web v d.market
          → list_of texts web (apply_diff texts web d w) d.market
            ≡ list_of texts web (apply_diff texts web d v) d.market
      own h =
          let key = market_key texts web d.market in
          elim (Bool-cases (has_changes d)) [
            | inr n ↦ rw n h
            | inl y ↦ ground (
              arith,
              y,
              eq_iff key key,
              lookup-set_key key key (updated_list texts web (list_of texts web w d.market) d) w,
              lookup-set_key key key (updated_list texts web (list_of texts web v d.market) d) v,
              ap (λ c. updated_list texts web c d) h,
            )
          ]

  -- In a run over distinct markets the list of each is changed by its own diff alone.
  apply_diffs-own :
      (v w : Watchlist) (market : String) (ms : List String)
      → Elem market ms
      → Distinct texts web ms
      → list_of texts web w market ≡ list_of texts web v market
      → list_of texts web (apply_diffs texts web (map (market_diff texts web v) ms) w) market
        ≡ list_of texts web (apply_diff texts web (market_diff texts web v market) v) market
  unfolding apply_diffs
  apply_diffs-own v w market [] m distinct e = absurd m
  apply_diffs-own v w market (x ∷ ms) (inl q) distinct e =
      let d = market_diff texts web v x in
      let apart = subst (λ y. Apart texts web y ms) q distinct.0 in
      apply_diffs-other v (apply_diff texts web d w) market ms apart
      ∙ apply_diff-local d v w market (market_diff-market v x ∙ q) e
      ∙ ap (λ y. list_of texts web (apply_diff texts web (market_diff texts web v y) v) market) q
  apply_diffs-own v w market (x ∷ ms) (inr r) distinct e =
      let d = market_diff texts web v x in
      let n = Apart-key x market ms r distinct.0 in
      let n' =
        subst (λ y. str_eq (market_key texts web y) (market_key texts web market) ≡ false)
          (sym (market_diff-market v x)) n in
      apply_diffs-own v (apply_diff texts web d w) market ms r distinct.1
        (apply_diff-other w market d n' ∙ e)

  run-watchlist :
      (markets : List String) (now : ℕ) (files : Files)
      → (run_watchlist_refresh texts web markets now files).0.watchlist
        ≡ apply_diffs texts web
            (map (market_diff texts web files.watchlist) markets)
            files.watchlist
  unfolding run_watchlist_refresh apply_watchlist_update
  run-watchlist markets now files =
      let diffs = map (market_diff texts web files.watchlist) markets in
      let kept = apply_diffs-keep diffs files.watchlist in
      elim (Bool-cases (is_empty (keep has_changes diffs))) [
        | inl e ↦ rw e (sym (apply_diffs-none (keep has_changes diffs) files.watchlist e) ∙ kept)
        | inr e ↦ rw e kept
      ]

  -- What a refresh of several markets with different keys does to the list of each, where `upper` of
  -- an upper-case text is that text. After a failed fetch the list is what it was. Otherwise its
  -- symbols, in upper case, are those of the old list and of the index, less the removed ones; the
  -- removed ones were on the list, are not in the index and are no longer traded; and they are no more
  -- than a tenth of the list, or one.
  pub run_watchlist_refresh-target :
      (markets : List String) (now : ℕ) (files : Files) (market : String)
      → Elem market markets
      → Distinct texts web markets
      → let new = (run_watchlist_refresh texts web markets now files).0.watchlist in
        let current = list_of texts web files.watchlist market in
        let fetched = web.fetch_index_symbols market in
        let removed = (market_diff texts web files.watchlist market).removed in
        (is_empty fetched ≡ true → list_of texts web new market ≡ current)
        × (is_empty fetched ≡ false
            → ((s : String)
                → has texts (list_of texts web new market) s
                  ≡ target texts current fetched removed s)
              × ((s : String)
                  → mem_text s removed ≡ true
                  → (has texts current s ≡ true)
                    × (has texts fetched s ≡ false)
                    × (web.verify_symbol_active s market ≡ false))
              × (length removed ≤ max_remove (length current)))
  run_watchlist_refresh-target markets now files market m distinct =
      let v = files.watchlist in
      let d = market_diff texts web v market in
      let run =
        ap (λ w. list_of texts web w market) (run-watchlist markets now files)
        ∙ apply_diffs-own v v market markets m distinct refl in
      (
        λ failed.
            run
            ∙ ap (λ w. list_of texts web w market)
                (apply_diff-unchanged d v (failed-unchanged v market failed)),
        λ answered.
            let c = market_diff-Careful v market answered in
            (
              λ s.
                  ap (λ xs. has texts xs s) run
                  ∙ apply_diff-target v (web.fetch_index_symbols market) market d s
                      (market_diff-market v market) c,
              c.removes,
              c.few,
            ),
      )
