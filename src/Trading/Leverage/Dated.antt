-- ===== src/Trading/Leverage/Dated.antt =====
-- The date of an entry of the weekly job of python/src/trading/regime_leverage_strategy.
use stock_fixer.Prelude.{ℕ, ◌≡◌, inl, inr, arith, Option, none, some, List, Bool-cases}
use stock_fixer.Trading.Leverage.{
  Floats, Terms, Market, Action, Failure, Result, Result-cases, ok, raised, ◌>>=◌, Decision,
  Snapshot, compute_equity_now, decide_weekly_entry, decide_weekly_exit, slipped_down,
}
use stock_fixer.Trading.Leverage.Bars.{Bar}
use stock_fixer.Trading.Leverage.Jobs.{
  Rate, get_latest_snapshot, load_latest_usdjpy, holds_none, given, last_of, weekly_decision,
  weekly_checked, run_regime_leverage_weekly_check,
}

module _ {F : Type 0} (fl : Floats F) (terms : Terms F) (market : Market) where
  -- An entry is dated by the clock of its job.
  abbrev pub Dated : ℕ → Action → Decision F → Type 0
  Dated now Action.entry d = d.entry_date ≡ some now
  Dated now Action.exit d = Unit
  Dated now Action.noop d = Unit

  abbrev pub AllDated : ℕ → Result (Decision F) → Type 0
  AllDated now (ok d) = Dated now d.action d
  AllDated now (raised e) = Unit

  entry-AllDated :
      (cash close ma200 atr14 rate : F) (now : ℕ)
      → AllDated now (decide_weekly_entry fl terms market cash close ma200 atr14 rate now)
  unfolding decide_weekly_entry
  entry-AllDated cash close ma200 atr14 rate now = ground arith

  exit-AllDated :
      (d : Decision F) (close ma200 rate : F) (now : ℕ)
      → AllDated now (decide_weekly_exit fl terms market d close ma200 rate now)
  unfolding decide_weekly_exit
  exit-AllDated d close ma200 rate now = ground (
    arith,
    Result-cases (compute_equity_now fl terms market d (fl.times close rate) now),
    Result-cases (
        compute_equity_now fl terms market d (slipped_down fl terms market (fl.times close rate))
          now),
  )

  weekly_decision-AllDated :
      (before : Option (Snapshot F)) (b : Bar F) (rate : F) (now : ℕ)
      → AllDated now (weekly_decision fl terms market before b rate now)
  unfolding weekly_decision
  weekly_decision-AllDated none b rate now = entry-AllDated _ b.close b.ma200 b.atr14 rate now
  weekly_decision-AllDated (some s) b rate now =
      elim (Bool-cases (holds_none fl terms market (some s))) [
        | inl flat ↦ rw flat (entry-AllDated _ b.close b.ma200 b.atr14 rate now)
        | inr held ↦ rw held (exit-AllDated s.decision b.close b.ma200 rate now)
      ]

  bind-AllDated :
      {A : Type 0} (now : ℕ) (r : Result A) (f : A → Result (Decision F))
      → ((a : A) → AllDated now (f a))
      → AllDated now (r >>= f)
  bind-AllDated now (ok a) f h = h a
  bind-AllDated now (raised e) f h = tt

  weekly_checked-AllDated :
      (before : Option (Snapshot F)) (spy : Option (List (Bar F))) (fx : Option (List (Rate F)))
      (rate_now now : ℕ)
      → AllDated now (weekly_checked fl terms market spy fx before rate_now now)
  unfolding weekly_checked
  weekly_checked-AllDated before spy fx rate_now now =
      bind-AllDated now (given Failure.load_failed spy) _ λ df.
        bind-AllDated now (load_latest_usdjpy fl terms market fx rate_now) _ λ rate.
          bind-AllDated now (last_of df) _
            λ b. ground (arith, weekly_decision-AllDated before b rate now)

  pub weekly-AllDated :
      (log : List (Snapshot F)) (spy : Option (List (Bar F))) (fx : Option (List (Rate F)))
      (rate_now now at : ℕ)
      → AllDated now (run_regime_leverage_weekly_check fl terms market log spy fx rate_now now at).0
  unfolding run_regime_leverage_weekly_check
  weekly-AllDated log spy fx rate_now now at =
      ground (arith, weekly_checked-AllDated (get_latest_snapshot log) spy fx rate_now now)
