-- ===== src/Trading/Leverage/Log.antt =====
-- What the log of the regime-leverage strategy looks like after any number of runs of its two jobs
-- (python/src/trading/regime_leverage_strategy).
use stock_fixer.Prelude.{
  ℕ, ◌≡◌, ◌≢◌, refl, ap, inl, inr, arith, Bool, true, false, Option, none, some, is_some, List, [],
  ◌∷◌, Bool-cases, Option-cases,
}
use stock_fixer.Trading.Leverage.{
  Floats, Terms, Market, Action, Failure, Result, Result-cases, ok, raised, ◌>>=◌, Decision,
  Snapshot, zero_float, equity_parts, compute_equity_now, decide_weekly_entry, decide_weekly_exit,
  decide_daily_check, slipped_down, slipped_up, calc_commission_usd, kept_position, Reason,
  reached_stop,
}
use stock_fixer.Trading.Leverage.Bars.{Bar, select_unchecked_closed_bars}
use stock_fixer.Trading.Leverage.Jobs.{
  Rate, last_from, get_latest_snapshot, load_latest_usdjpy, holds_none, given, last_of,
  weekly_decision, weekly_checked, judge_bar, judge_bars, finish_check, check_bars, check_held,
  missing_days, last_checked, run_regime_leverage_weekly_check,
  run_regime_leverage_daily_margin_check,
}
use stock_fixer.Trading.Leverage.Dated.{AllDated, weekly-AllDated}

module _ {F : Type 0} (fl : Floats F) (terms : Terms F) (market : Market) where
  -- The price, the date and the equity of an entry are on record.
  abbrev pub HasEntry : Decision F → Type 0
  HasEntry d =
      (is_some d.entry_price_jpy ≡ true)
      × (is_some d.entry_date ≡ true)
      × (is_some d.equity_at_entry_jpy ≡ true)

  abbrev pub is_flat : Decision F → Bool
  is_flat d = fl.at_most d.shares (zero_float fl terms market)

  -- The cash that an entry is made with.
  abbrev pub cash_before : Option (Snapshot F) → F
  cash_before none = terms.initial_capital
  cash_before (some s) = s.decision.equity_now_jpy

  -- The second row shows the position of the first, with the same data of its entry.
  pub record IsSamePosition (d d' : Decision F) : Type 0 where
    pub shares : d'.shares ≡ d.shares
    pub entry_date : d'.entry_date ≡ d.entry_date
    pub entry_price_jpy : d'.entry_price_jpy ≡ d.entry_price_jpy
    pub entry_commission_jpy : d'.entry_commission_jpy ≡ d.entry_commission_jpy
    pub equity_at_entry_jpy : d'.equity_at_entry_jpy ≡ d.equity_at_entry_jpy
    pub stop_price_jpy : d'.stop_price_jpy ≡ d.stop_price_jpy

  abbrev pub Continues : Option (Snapshot F) → Decision F → Type 0
  Continues none d = ⊥
  Continues (some s) d = IsSamePosition s.decision d

  -- The data of a new position: the price and the commission at the price and the rate of its row,
  -- and the cash before.
  abbrev pub IsPriced : F → Decision F → Type 0
  IsPriced cash d =
      let price_usd = slipped_up fl terms market d.spy_price_usd in
      (d.entry_price_jpy ≡ some (fl.times price_usd d.usdjpy_rate))
      × (d.entry_commission_jpy
          ≡ some (
              fl.times (calc_commission_usd fl terms market (fl.times price_usd d.shares))
                d.usdjpy_rate))
      × (d.equity_at_entry_jpy ≡ some cash)

  -- What a row does to the state before it.
  abbrev pub Turns : Action → Option (Snapshot F) → Decision F → Type 0
  Turns Action.entry before d =
      (holds_none fl terms market before ≡ true)
      × (is_flat d ≡ false)
      × IsPriced (cash_before before) d
  Turns Action.exit before d = (holds_none fl terms market before ≡ false) × (is_flat d ≡ true)
  Turns Action.noop before d =
      (is_flat d ≡ holds_none fl terms market before) × (is_flat d ≡ false → Continues before d)

  abbrev pub Follows : Option (Snapshot F) → Decision F → Type 0
  Follows before d = Turns d.action before d × (is_flat d ≡ false → HasEntry d)

  abbrev pub Ordered : List (Snapshot F) → Type 0
  Ordered [] = Unit
  Ordered (s ∷ log) = Follows (get_latest_snapshot log) s.decision × Ordered log

  -- A result that follows the state before, or an error that is not about a missing entry.
  abbrev pub Sound : Option (Snapshot F) → Result (Decision F) → Type 0
  Sound before (ok d) = Follows before d
  Sound before (raised e) = e ≢ Failure.not_held

  -- The logs that the jobs write, from an empty table on.
  pub data Reached : List (Snapshot F) → Type 0 where
    begun : Reached []
    weekly :
        {log : List (Snapshot F)} (spy : Option (List (Bar F))) (fx : Option (List (Rate F)))
        (rate_now now at : ℕ)
        → Reached log
        → Reached (run_regime_leverage_weekly_check fl terms market log spy fx rate_now now at).1
    daily :
        {log : List (Snapshot F)} (spy : Option (List (Bar F))) (fx : Option (List (Rate F)))
        (rate_now now at : ℕ)
        → Reached log
        → Reached
            (run_regime_leverage_daily_margin_check fl terms market log spy fx rate_now now at).1

  compute_equity_now-ok :
      (d : Decision F) (price : F) (now : ℕ)
      → HasEntry d
      → (x : F) × (compute_equity_now fl terms market d price now ≡ ok x)
  unfolding compute_equity_now
  compute_equity_now-ok d price now h =
      parts d.entry_price_jpy d.entry_date d.equity_at_entry_jpy h.0 h.1 h.2
    where
      parts :
          (p : Option F) (t : Option ℕ) (e : Option F)
          → is_some p ≡ true
          → is_some t ≡ true
          → is_some e ≡ true
          → (x : F) × (equity_parts fl terms market d price now p t e ≡ ok x)
      parts none _ _ a b c = cc
      parts (some p) none _ a b c = cc
      parts (some p) (some t) none a b c = cc
      parts (some p) (some t) (some e) a b c = (_, refl)

  kept-IsSamePosition :
      (d : Decision F) (reason : Reason) (price rate equity_now : F) (ratio : Option F)
      → IsSamePosition d (kept_position fl terms market d reason price rate equity_now ratio)
  kept-IsSamePosition d reason price rate equity_now ratio = record {
    shares = refl;
    entry_date = refl;
    entry_price_jpy = refl;
    entry_commission_jpy = refl;
    equity_at_entry_jpy = refl;
    stop_price_jpy = refl;
  }

  load-Sound :
      (fx : Option (List (Rate F))) (now : ℕ)
      → load_latest_usdjpy fl terms market fx now ≢ raised Failure.not_held
  unfolding load_latest_usdjpy
  load-Sound fx now = λ h. ground arith

  module _
      (zero_le : fl.at_most (zero_float fl terms market) (zero_float fl terms market) ≡ true) where
    entry-Sound :
        (before : Option (Snapshot F)) (close ma200 atr14 rate : F) (now : ℕ)
        → holds_none fl terms market before ≡ true
        → Sound before
            (decide_weekly_entry fl terms market (cash_before before) close ma200 atr14 rate now)
    unfolding decide_weekly_entry
    entry-Sound before close ma200 atr14 rate now flat = ground (arith, zero_le, flat)

    exit-Sound :
        (s : Snapshot F) (close ma200 rate : F) (now : ℕ)
        → HasEntry s.decision
        → is_flat s.decision ≡ false
        → Sound (some s) (decide_weekly_exit fl terms market s.decision close ma200 rate now)
    unfolding decide_weekly_exit
    exit-Sound s close ma200 rate now h f =
        let d = s.decision in
        ground (
          arith,
          zero_le,
          (compute_equity_now-ok d (fl.times close rate) now h).1,
          (compute_equity_now-ok d (slipped_down fl terms market (fl.times close rate)) now h).1,
          kept-IsSamePosition d,
        )

    daily-Sound :
        (s : Snapshot F) (low rate : F) (now : ℕ)
        → HasEntry s.decision
        → is_flat s.decision ≡ false
        → Sound (some s) (decide_daily_check fl terms market s.decision low rate now)
    unfolding decide_daily_check
    daily-Sound s low rate now h f =
        let d = s.decision in
        let low_jpy = fl.times low rate in
        let at_low = (compute_equity_now-ok d low_jpy now h).1 in
        let at_call = (compute_equity_now-ok d (slipped_down fl terms market low_jpy) now h).1 in
        elim (Option-cases (reached_stop fl terms market low_jpy d.stop_price_jpy)) [
          | inl e ↦ ground (arith, zero_le, at_low, at_call, e, kept-IsSamePosition d)
          | inr (stop, e) ↦ ground (
            arith,
            zero_le,
            at_low,
            at_call,
            e,
            (compute_equity_now-ok d (slipped_down fl terms market stop) now h).1,
          )
        ]

    judge_bar-Sound :
        (s : Snapshot F) (rate : F) (now : ℕ) (b : Bar F)
        → HasEntry s.decision
        → is_flat s.decision ≡ false
        → Sound (some s) (judge_bar fl terms market s.decision rate now b)
    unfolding judge_bar
    judge_bar-Sound s rate now b h f = ground (arith, daily-Sound s b.low rate now h f)

    judge_bars-Sound :
        (s : Snapshot F) (rate : F) (now : ℕ) (b : Bar F) (bs : List (Bar F))
        → HasEntry s.decision
        → is_flat s.decision ≡ false
        → Sound (some s) (judge_bars fl terms market s.decision rate now b bs)
    unfolding judge_bars
    judge_bars-Sound s rate now b [] h f = judge_bar-Sound s rate now b h f
    judge_bars-Sound s rate now b (c ∷ cs) h f =
        ground (arith, judge_bar-Sound s rate now b h f, judge_bars-Sound s rate now c cs h f)

    -- What a job leaves: an ordered log, and no error about a missing entry.
    abbrev pub Kept : {A : Type 0} → Result A → List (Snapshot F) → Type 0
    Kept r log = Ordered log × (r ≢ raised Failure.not_held)

    weekly_decision-Sound :
        (log : List (Snapshot F)) (b : Bar F) (rate : F) (now : ℕ)
        → Ordered log
        → Sound
            (get_latest_snapshot log)
            (weekly_decision fl terms market (get_latest_snapshot log) b rate now)
    unfolding weekly_decision
    weekly_decision-Sound [] b rate now o = entry-Sound none b.close b.ma200 b.atr14 rate now refl
    weekly_decision-Sound (s ∷ log) b rate now o = elim (Bool-cases (is_flat s.decision)) [
      | inl flat ↦ rw flat (entry-Sound (some s) b.close b.ma200 b.atr14 rate now flat)
      | inr held ↦ rw held (exit-Sound s b.close b.ma200 rate now (o.0.1 held) held)
    ]

    bind-Sound :
        {A : Type 0} (before : Option (Snapshot F)) (r : Result A) (f : A → Result (Decision F))
        → r ≢ raised Failure.not_held
        → ((a : A) → Sound before (f a))
        → Sound before (r >>= f)
    bind-Sound before (ok a) f n h = h a
    bind-Sound before (raised e) f n h = λ q. n (ap raised q)

    given-not_held :
        {A : Type 0} (e : Failure) (o : Option A)
        → e ≢ Failure.not_held
        → given e o ≢ raised Failure.not_held
    given-not_held e none n = λ q. ground arith
    given-not_held e (some a) n = λ q. cc

    last_of-not_held : {A : Type 0} (xs : List A) → last_of xs ≢ raised Failure.not_held
    last_of-not_held xs = λ q. ground arith

    weekly_checked-Sound :
        (log : List (Snapshot F)) (spy : Option (List (Bar F))) (fx : Option (List (Rate F)))
        (rate_now now : ℕ)
        → Ordered log
        → Sound
            (get_latest_snapshot log)
            (weekly_checked fl terms market spy fx (get_latest_snapshot log) rate_now now)
    unfolding weekly_checked
    weekly_checked-Sound log spy fx rate_now now o =
        bind-Sound _ (given Failure.load_failed spy) _ (given-not_held _ spy (λ q. cc)) λ df.
          bind-Sound _ (load_latest_usdjpy fl terms market fx rate_now) _ (load-Sound fx rate_now)
            λ rate.
              bind-Sound _ (last_of df) _ (last_of-not_held df)
                λ b. ground (arith, weekly_decision-Sound log b rate now o)

    weekly-Kept :
        (log : List (Snapshot F)) (spy : Option (List (Bar F))) (fx : Option (List (Rate F)))
        (rate_now now at : ℕ)
        → Ordered log
        → Kept
            (run_regime_leverage_weekly_check fl terms market log spy fx rate_now now at).0
            (run_regime_leverage_weekly_check fl terms market log spy fx rate_now now at).1
    unfolding run_regime_leverage_weekly_check
    weekly-Kept log spy fx rate_now now at o =
        ground (arith, o, weekly_checked-Sound log spy fx rate_now now o)

    -- In a log whose latest row is a position.
    module _ (s : Snapshot F) (older : List (Snapshot F)) (o : Ordered (s ∷ older))
        (held : is_flat s.decision ≡ false) (at : ℕ) where
      abbrev log : List (Snapshot F)
      log = s ∷ older

      finish_check-Kept :
          (d : Decision F) (missing : List ℕ) (last_bar now : ℕ)
          → Follows (some s) d
          → Kept
              (finish_check fl terms market log d missing last_bar now at).0
              (finish_check fl terms market log d missing last_bar now at).1
      unfolding finish_check
      finish_check-Kept d missing last_bar now follows = ground (arith, o, held)

      check_bars-Kept :
          (df : List (Bar F)) (rate : F) (since : Option ℕ) (now : ℕ) (bars : List (Bar F))
          → Kept
              (check_bars fl terms market log s.decision df rate since now at bars).0
              (check_bars fl terms market log s.decision df rate since now at bars).1
      unfolding check_bars
      check_bars-Kept df rate since now [] = (o, λ q. cc)
      check_bars-Kept df rate since now (b ∷ bs) =
          let last_bar = (last_from b bs).on_day in
          let sound = judge_bars-Sound s rate now b bs (o.0.1 held) held in
          elim (Result-cases (judge_bars fl terms market s.decision rate now b bs)) [
            | inl (x, e) ↦
                let follows : Follows (some s) x = rw e at sound in
                let finished =
                  finish_check-Kept x (missing_days fl terms market df since last_bar) last_bar now
                    follows in
                ground (arith, e, o, held, follows, finished)
            | inr (x, e) ↦ ground (arith, e, o, sound)
          ]

      check_held-Kept :
          (spy : Option (List (Bar F))) (fx : Option (List (Rate F))) (rate_now now : ℕ)
          → Kept
              (check_held fl terms market log s spy fx rate_now now at).0
              (check_held fl terms market log s spy fx rate_now now at).1
      unfolding check_held
      check_held-Kept none fx rate_now now = (o, λ q. cc)
      check_held-Kept (some df) fx rate_now now =
          let since = last_checked fl terms market s log in
          elim (Result-cases (load_latest_usdjpy fl terms market fx rate_now)) [
            | inl (rate, e) ↦
                rw (e, check_held)
                  (check_bars-Kept df rate since now
                    (select_unchecked_closed_bars market df since now))
            | inr (x, e) ↦
                rw (e, check_held) (o, λ q. load-Sound fx rate_now (ground (arith, e, q)))
          ]

    daily-Kept :
        (log : List (Snapshot F)) (spy : Option (List (Bar F))) (fx : Option (List (Rate F)))
        (rate_now now at : ℕ)
        → Ordered log
        → Kept
            (run_regime_leverage_daily_margin_check fl terms market log spy fx rate_now now at).0
            (run_regime_leverage_daily_margin_check fl terms market log spy fx rate_now now at).1
    unfolding run_regime_leverage_daily_margin_check
    daily-Kept [] spy fx rate_now now at o = (tt, λ q. cc)
    daily-Kept (s ∷ log) spy fx rate_now now at o = elim (Bool-cases (is_flat s.decision)) [
      | inl flat ↦ rw flat (o, λ q. cc)
      | inr held ↦
          let kept = check_held-Kept s log o held at spy fx rate_now now in
          ground (arith, held, kept)
    ]

    Reached_Ordered : {log : List (Snapshot F)} → Reached log → Ordered log
    Reached_Ordered begun = tt
    Reached_Ordered (weekly {log = l} spy fx rate_now now at r) =
        (weekly-Kept l spy fx rate_now now at (Reached_Ordered r)).0
    Reached_Ordered (daily {log = l} spy fx rate_now now at r) =
        (daily-Kept l spy fx rate_now now at (Reached_Ordered r)).0

    -- From an empty log on, whatever the prices, the frames and the clocks, in every log that the two
    -- jobs write: an entry follows a state with no position, and has the price and the commission at
    -- the price and the rate of its row, and the cash before it; a `noop` that shows a position follows
    -- the same position, with its shares and all the data of its entry unchanged; an exit follows a
    -- state with a position; and each row with a position has the date, the price and the equity of an
    -- entry. A position that the weekly job opens is dated by its clock, and neither job ever raises
    -- the error of a position without its entry. Only the order of 0 with itself is asked of the
    -- floats.
    pub Reached-Ordered :
        (log : List (Snapshot F)) (spy : Option (List (Bar F))) (fx : Option (List (Rate F)))
        (rate_now now at : ℕ)
        → Reached log
        → Ordered log
          × AllDated fl terms market now
              (run_regime_leverage_weekly_check fl terms market log spy fx rate_now now at).0
          × ((run_regime_leverage_weekly_check fl terms market log spy fx rate_now now at).0
              ≢ raised Failure.not_held)
          × ((run_regime_leverage_daily_margin_check fl terms market log spy fx rate_now now at).0
              ≢ raised Failure.not_held)
    Reached-Ordered log spy fx rate_now now at r =
        let o = Reached_Ordered r in
        (
          o,
          weekly-AllDated fl terms market log spy fx rate_now now at,
          (weekly-Kept log spy fx rate_now now at o).1,
          (daily-Kept log spy fx rate_now now at o).1,
        )
