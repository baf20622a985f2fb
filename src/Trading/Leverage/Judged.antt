-- ===== src/Trading/Leverage/Judged.antt =====
-- That the daily check of python/src/trading/regime_leverage_strategy/service.py leaves out no
-- trading day: what it means that it writes a row, and which bars it has judged then.
use stock_fixer.Prelude.{
  ℕ, zero, suc, ◌+◌, ◌-◌, ◌≡◌, ◌≤◌, ◌<◌, refl, ap, inl, inr, arith, true, false, Option, none, some,
  List, [], ◌∷◌, Bool-cases, length, keep, mem_nat, All, ==_iff, ◌==◌,
}
use stock_fixer.Prelude.Elem.{Elem, is_empty, keep-Elem, keep-sub, Elem-empty, keep-none, All-Elem}
use stock_fixer.Trading.Leverage.{
  Floats, Terms, Market, Result, Result-cases, ok, raised, Decision, Snapshot, decide_daily_check,
  zero_float,
}
use stock_fixer.Trading.Leverage.Bars.{
  Bar, days_from, last_one, is_due, latest_due, latest_expected_bar_date, is_missing, bar_days,
  missing_business_days, has_closed, is_unchecked, select_unchecked_closed_bars,
}
use stock_fixer.Trading.Leverage.Jobs.{
  Rate, last_from, is_exit, load_latest_usdjpy, judge_bar, judge_bars, last_checked, missing_days,
  insert_snapshot, finish_check, check_bars, check_held, checked_or_none,
  run_regime_leverage_daily_margin_check,
}

last_one-sub :
    {F : Type 0} (market : Market) (a : Bar F) (xs : List (Bar F))
    → Elem a (last_one market xs)
    → Elem a xs
last_one-sub market a [] m = absurd m
last_one-sub market a (x ∷ []) m = m
last_one-sub market a (x ∷ y ∷ xs) m = inr (last_one-sub market a (y ∷ xs) m)

days_from-Elem : (first n day : ℕ) → first ≤ day → day < first + n → Elem day (days_from first n)
days_from-Elem first zero day h k = absurd (omega arith)
days_from-Elem first (suc n) day h k = elim (Bool-cases (first == day)) [
  | inl e ↦ inl ((==_iff first day).0 e)
  | inr e ↦ inr (days_from-Elem (suc first) n day (ground (arith, e)) (omega arith))
]

last_from-Elem : {F : Type 0} (b : Bar F) (bs : List (Bar F)) → Elem (last_from b bs) (b ∷ bs)
last_from-Elem b [] = inl refl
last_from-Elem b (c ∷ cs) = inr (last_from-Elem c cs)

bar_days-Elem :
    {F : Type 0} (market : Market) (day : ℕ) (df : List (Bar F))
    → mem_nat day (bar_days market df) ≡ true
    → (b : Bar F) × Elem b df × (b.on_day ≡ day)
bar_days-Elem market day [] h = cc
bar_days-Elem market day (b ∷ df) h = elim (Bool-cases (b.on_day == day)) [
  | inl e ↦ (b, inl refl, (==_iff b.on_day day).0 e)
  | inr e ↦ let (c, m, q) = bar_days-Elem market day df (ground (arith, e, h)) in (c, inr m, q)
]

module _ (market : Market) where
  -- The search finds a day at least as late as every day that is due.
  latest_due-le :
      (now from day : ℕ)
      → day ≤ from
      → is_due market now day ≡ true
      → (e : ℕ) × (latest_due market now from ≡ some e) × (day ≤ e)
  unfolding latest_due
  latest_due-le now zero day h k =
      let z : day ≡ 0 = omega arith in (0, rw (rw z at k) refl, omega arith)
  latest_due-le now (suc from) day h k = elim (Bool-cases (is_due market now (suc from))) [
    | inl y ↦ (suc from, rw y refl, h)
    | inr n ↦
        let below : day ≤ from = not_top n in
        let (e, found, le) = latest_due-le now from day below k in (e, rw n found, le)
  ]
    where
      not_top : is_due market now (suc from) ≡ false → day ≤ from
      not_top n = elim (Bool-cases (day == suc from)) [
        | inl e ↦ cc (k, n, ap (is_due market now) ((==_iff day (suc from)).0 e))
        | inr e ↦ ground (arith, e)
      ]

  missing_business_days-Elem :
      {F : Type 0} (df : List (Bar F)) (since last_bar day : ℕ)
      → is_empty (missing_business_days market df since last_bar) ≡ true
      → market.us_day since ≤ day
      → day < last_bar
      → market.is_us_business_day day ≡ true
      → since < market.bar_close_at day
      → (b : Bar F) × Elem b df × (b.on_day ≡ day)
  unfolding missing_business_days
  missing_business_days-Elem df since last_bar day none_missing first before business closes =
      let m =
        days_from-Elem (market.us_day since) (last_bar - market.us_day since) day first
          (omega arith) in
      let there = keep-none (is_missing market df since) day _ none_missing m in
      bar_days-Elem market day df (ground (arith, there, business, closes))

  -- A bar that has closed since the last check is among those that are judged.
  select-Elem :
      {F : Type 0} (df : List (Bar F)) (since now : ℕ) (b : Bar F)
      → Elem b df
      → market.bar_close_at b.on_day ≤ now
      → since < market.bar_close_at b.on_day
      → Elem b (select_unchecked_closed_bars market df (some since) now)
  unfolding select_unchecked_closed_bars
  select-Elem df since now b m closed unchecked =
      let c = keep-Elem (has_closed market now) b df m (ground arith) in
      let u = keep-Elem (is_unchecked market since) b _ c (ground arith) in
      elim (Bool-cases
        (is_empty (keep (is_unchecked market since) (keep (has_closed market now) df)))) [
          | inl e ↦ absurd (Elem-empty b _ e u)
          | inr n ↦ rw n u
        ]

  -- The bars that are judged are rows of the frame.
  select-of_frame :
      {F : Type 0} (df : List (Bar F)) (since : Option ℕ) (now : ℕ) (b : Bar F)
      → Elem b (select_unchecked_closed_bars market df since now)
      → Elem b df
  unfolding select_unchecked_closed_bars
  select-of_frame df none now b m = keep-sub _ b df (last_one-sub market b _ m)
  select-of_frame df (some since) now b m =
      let closed = keep (has_closed market now) df in
      elim (Bool-cases (is_empty (keep (is_unchecked market since) closed))) [
        | inl e ↦
            let m' : Elem b (last_one market closed) = rw e at m in
            keep-sub _ b df (last_one-sub market b _ m')
        | inr n ↦
            let m' : Elem b (keep (is_unchecked market since) closed) = rw n at m in
            keep-sub _ b df (keep-sub _ b _ m')
      ]

module _ {F : Type 0} (fl : Floats F) (terms : Terms F) (market : Market) where
  -- The bar's low is known, and the position stays.
  abbrev pub Cleared : Decision F → F → ℕ → Bar F → Type 0
  Cleared d rate now b =
      (fl.is_nan b.low ≡ false)
      × ((x : Decision F) × (decide_daily_check fl terms market d b.low rate now ≡ ok x)
          × (is_exit x.action ≡ false))

  judge_bar-Cleared :
      (d : Decision F) (rate : F) (now : ℕ) (b : Bar F) (x : Decision F)
      → judge_bar fl terms market d rate now b ≡ ok x
      → is_exit x.action ≡ false
      → Cleared d rate now b
  unfolding judge_bar
  judge_bar-Cleared d rate now b x e stays = (ground arith, (x, ground arith, stays))

  -- A loop that ends in no exit has cleared every bar.
  judge_bars-Cleared :
      (d : Decision F) (rate : F) (now : ℕ) (b : Bar F) (bs : List (Bar F)) (x : Decision F)
      → judge_bars fl terms market d rate now b bs ≡ ok x
      → is_exit x.action ≡ false
      → All (Cleared d rate now) (b ∷ bs)
  unfolding judge_bars
  judge_bars-Cleared d rate now b [] x e stays = (judge_bar-Cleared d rate now b x e stays, tt)
  judge_bars-Cleared d rate now b (c ∷ cs) x e stays =
      elim (Result-cases (judge_bar fl terms market d rate now b)) [
        | inr (f, q) ↦ ground (arith, q, e)
        | inl (y, q) ↦ elim (Bool-cases (is_exit y.action)) [
          | inl out ↦ ground (arith, q, e, out, stays)
          | inr goes_on ↦ (
            judge_bar-Cleared d rate now b y q goes_on,
            judge_bars-Cleared d rate now c cs x (ground (arith, q, e, goes_on)) stays,
          )
        ]
      ]

  -- A check without an exit writes a row only if no day is missing and the last bar is not behind.
  finish_check-wrote :
      (log : List (Snapshot F)) (d dec : Decision F) (missing : List ℕ) (last_bar now at : ℕ)
      → finish_check fl terms market log d missing last_bar now at
        ≡ (ok dec, insert_snapshot at dec log)
      → (is_empty missing ≡ true)
        × ((e : ℕ) → latest_expected_bar_date market now ≡ some e → e ≤ last_bar)
  unfolding finish_check
  finish_check-wrote log d dec missing last_bar now at h =
      let grows = ap (λ (j : Result (Decision F) × List (Snapshot F)). length j.1) h in
      (ground (arith, grows), λ e q. ground (arith, grows, q))

  check_bars-wrote :
      (log : List (Snapshot F)) (d dec : Decision F) (df : List (Bar F)) (rate : F)
      (since : Option ℕ) (now at : ℕ) (b : Bar F) (bs : List (Bar F))
      → check_bars fl terms market log d df rate since now at (b ∷ bs)
        ≡ (ok dec, insert_snapshot at dec log)
      → is_exit dec.action ≡ false
      → All (Cleared d rate now) (b ∷ bs)
        × (is_empty (missing_days fl terms market df since (last_from b bs).on_day) ≡ true)
        × ((e : ℕ) → latest_expected_bar_date market now ≡ some e → e ≤ (last_from b bs).on_day)
  unfolding check_bars
  check_bars-wrote log d dec df rate since now at b bs h stays =
      let last_bar = (last_from b bs).on_day in
      elim (Result-cases (judge_bars fl terms market d rate now b bs)) [
        | inr (f, q) ↦ ground (arith, q, h)
        | inl (y, q) ↦ elim (Bool-cases (is_exit y.action)) [
          | inl out ↦ ground (arith, q, h, out, stays)
          | inr goes_on ↦
              let f =
                finish_check-wrote log y dec (missing_days fl terms market df since last_bar)
                  last_bar now at (ground (arith, q, h, goes_on)) in
              (judge_bars-Cleared d rate now b bs y q goes_on, f.0, f.1)
        ]
      ]

  -- A day is at the bar of a frame that a check has cleared.
  abbrev pub IsJudged : Decision F → F → ℕ → List (Bar F) → ℕ → Type 0
  IsJudged d rate now df day = (b : Bar F) × Elem b df × (b.on_day ≡ day) × Cleared d rate now b

  module _ (closes : (day now : ℕ) → market.bar_close_at day ≤ now → day ≤ market.us_day now)
      (opens : (day since : ℕ) → since < market.bar_close_at day → market.us_day since ≤ day) where
    module _ (log : List (Snapshot F)) (d dec : Decision F) (df : List (Bar F)) (rate : F)
        (since now at day : ℕ) (stays : is_exit dec.action ≡ false)
        (business : market.is_us_business_day day ≡ true) (after : since < market.bar_close_at day)
        (closed : market.bar_close_at day ≤ now) where
      -- The day of the last bar is judged with it; an earlier day has its own bar in the frame.
      bars-IsJudged :
          (bars : List (Bar F))
          → ((x : Bar F) → Elem x bars → Elem x df)
          → ((x : Bar F) → Elem x df → x.on_day ≡ day → Elem x bars)
          → check_bars fl terms market log d df rate (some since) now at bars
            ≡ (ok dec, insert_snapshot at dec log)
          → IsJudged d rate now df day
      unfolding check_bars missing_days latest_expected_bar_date
      bars-IsJudged [] of_frame judged h = ground (arith, h)
      bars-IsJudged (b ∷ bs) of_frame judged h =
          let (cleared, none_missing, reached) =
            check_bars-wrote log d dec df rate (some since) now at b bs h stays in
          let (e, found, le) =
            latest_due-le market now (market.us_day now) day (closes day now closed)
              (ground (arith, business)) in
          let last = last_from b bs in
          let not_behind : e ≤ last.on_day = reached e found in
          elim (Bool-cases (last.on_day == day)) [
            | inl same ↦
                let m = last_from-Elem b bs in
                (
                  last,
                  of_frame last m,
                  (==_iff last.on_day day).0 same,
                  All-Elem (Cleared d rate now) last (b ∷ bs) cleared m,
                )
            | inr other ↦
                let (x, m, q) =
                  missing_business_days-Elem market df since last.on_day day none_missing
                    (opens day since after) (ground (arith, other)) business after in
                (x, m, q, All-Elem (Cleared d rate now) x (b ∷ bs) cleared (judged x m q))
          ]

      check_bars-IsJudged :
          check_bars fl terms market log d df rate
              (some since)
              now
              at
              (select_unchecked_closed_bars market df (some since) now)
            ≡ (ok dec, insert_snapshot at dec log)
          → IsJudged d rate now df day
      check_bars-IsJudged h =
          bars-IsJudged (select_unchecked_closed_bars market df (some since) now)
            (select-of_frame market df (some since) now)
            (λ x m q. select-Elem market df since now x m (rw q closed) (rw q after)) h

    checked-inverse :
        (j : Result (Decision F) × List (Snapshot F)) (d : Decision F) (log : List (Snapshot F))
        → checked_or_none fl terms market j ≡ (ok (some d), log)
        → j ≡ (ok d, log)
    checked-inverse (ok x, l) d log h = ground arith
    checked-inverse (raised e, l) d log h = ground arith

    -- A check that writes a row had a position and a rate, and went through the bars.
    daily-wrote :
        (log : List (Snapshot F)) (s : Snapshot F) (dec : Decision F) (df : List (Bar F))
        (fx : Option (List (Rate F))) (rate_now now at since : ℕ)
        → run_regime_leverage_daily_margin_check fl terms market
            (s ∷ log)
            (some df)
            fx
            rate_now
            now
            at
          ≡ (ok (some dec), insert_snapshot at dec (s ∷ log))
        → last_checked fl terms market s (s ∷ log) ≡ some since
        → (rate : F) × (load_latest_usdjpy fl terms market fx rate_now ≡ ok rate)
          × (check_bars fl terms market
                (s ∷ log)
                s.decision
                df
                rate
                (some since)
                now
                at
                (select_unchecked_closed_bars market df (some since) now)
              ≡ (ok dec, insert_snapshot at dec (s ∷ log)))
    unfolding run_regime_leverage_daily_margin_check check_held
    daily-wrote log s dec df fx rate_now now at since h e =
        elim (Bool-cases (fl.at_most s.decision.shares (zero_float fl terms market))) [
          | inl flat ↦ ground (arith, flat, h)
          | inr held ↦ elim (Result-cases (load_latest_usdjpy fl terms market fx rate_now)) [
            | inr (f, q) ↦ ground (arith, held, q, h)
            | inl (rate, q) ↦ (
              rate,
              q,
              checked-inverse
                  (check_bars fl terms market (s ∷ log) s.decision df rate (some since) now at
                    (select_unchecked_closed_bars market df (some since) now))
                  dec (insert_snapshot at dec (s ∷ log)) (ground (arith, held, q, e, h)),
            )
          ]
        ]

    -- A daily check of a position that writes a row and does not sell: every trading day whose close
    -- lies after the time of the last check and not after the clock has a bar in the frame, with a low
    -- that is known and that was judged, at the current rate, to keep the position. So no day between
    -- two checks is left out. The close of a day is taken to lie on that day in New York.
    pub daily_margin_check-IsJudged :
        (log : List (Snapshot F)) (s : Snapshot F) (dec : Decision F) (df : List (Bar F))
        (fx : Option (List (Rate F))) (rate_now now at since day : ℕ)
        → run_regime_leverage_daily_margin_check fl terms market
            (s ∷ log)
            (some df)
            fx
            rate_now
            now
            at
          ≡ (ok (some dec), insert_snapshot at dec (s ∷ log))
        → is_exit dec.action ≡ false
        → last_checked fl terms market s (s ∷ log) ≡ some since
        → market.is_us_business_day day ≡ true
        → since < market.bar_close_at day
        → market.bar_close_at day ≤ now
        → (rate : F) × (load_latest_usdjpy fl terms market fx rate_now ≡ ok rate)
          × IsJudged s.decision rate now df day
    daily_margin_check-IsJudged log s dec df fx rate_now now at since day h stays e business after
          closed =
        let (rate, q, c) = daily-wrote log s dec df fx rate_now now at since h e in
        (
          rate,
          q,
          check_bars-IsJudged (s ∷ log) s.decision dec df rate since now at day stays business after
              closed c,
        )
