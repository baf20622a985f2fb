-- ===== src/Trading/OrderCaps/Limits.antt =====
-- The limits of a run of purchases (python/src/trading/claude_order_caps.py).
use stock_fixer.Prelude.{
  ℕ, ◌+◌, ◌≡◌, ◌≤◌, max, refl, inl, inr, Bool, true, false, Option, none, some, List, [], ◌∷◌,
  String, arith, if◌then◌else◌, mem_text, is_some, Bool-cases, str_eq, length,
}
use stock_fixer.Trading.SectorCap.{Counter, count_of}
use stock_fixer.Trading.SectorCap.Counts.{count-same, bump-same, bump-other}
use stock_fixer.Trading.OrderCaps.{
  Settings, RunBuyCaps, check_buy, record_buy, sector_is_full, count_sector, start_run_buy_caps,
}

-- The states that a run reaches: each purchase has passed `check_buy` in the state it meets, and is
-- recorded where the order was taken.
pub data Reached (s : Settings) (start : RunBuyCaps) : RunBuyCaps → Type 0 where
  begun : Reached s start start
  bought :
      {caps : RunBuyCaps} (symbol : String)
      → Reached s start caps
      → check_buy s caps symbol ≡ none
      → Reached s start (record_buy s caps symbol)

-- What a check that lets a purchase through has seen.
check_buy-none :
    (s : Settings) (caps : RunBuyCaps) (symbol : String)
    → check_buy s caps symbol ≡ none
    → (caps.buy_orders + 1 ≤ s.max_orders_per_run)
      × (caps.position_count + 1 ≤ s.max_positions)
      × (mem_text symbol caps.bought_symbols ≡ false)
      × (is_some caps.corr_block_reason ≡ false)
      × (sector_is_full s caps.sector_counts symbol ≡ false)
unfolding check_buy
check_buy-none s caps symbol h = ground (arith, h)

-- No symbol twice.
abbrev pub distinct : List String → Bool
distinct [] = true
distinct (x ∷ xs) = if mem_text x xs then false else distinct xs

record Within (s : Settings) (start caps : RunBuyCaps) : Type 0 where
  orders : caps.buy_orders ≤ max s.max_orders_per_run start.buy_orders
  positions : caps.position_count ≤ max s.max_positions start.position_count
  once : distinct caps.bought_symbols ≡ true
  gate : caps.corr_block_reason ≡ start.corr_block_reason

Reached-Within :
    (s : Settings) (start caps : RunBuyCaps)
    → distinct start.bought_symbols ≡ true
    → Reached s start caps
    → Within s start caps
unfolding record_buy
Reached-Within s start caps d begun = record {
  orders = omega arith;
  positions = omega arith;
  once = d;
  gate = refl;
}
Reached-Within s start _ d (bought {caps = caps} symbol r h) =
    let w = Reached-Within s start caps d r in
    let c = check_buy-none s caps symbol h in
    record {
      orders = omega (arith, c.0);
      positions = omega (arith, c.1);
      once = let m = c.2 in rw m w.once;
      gate = w.gate;
    }

-- A run that starts from the holdings takes at most `max_orders_per_run` purchases, fills the
-- positions up to `max_positions` at most (or leaves them at the number of the start), and buys no
-- symbol twice.
pub start_run_buy_caps-limits :
    (s : Settings) (codes : List String) (reason : Option String) (shorts : ℕ) (caps : RunBuyCaps)
    → Reached s (start_run_buy_caps s codes reason shorts) caps
    → (caps.buy_orders ≤ s.max_orders_per_run)
      × (caps.position_count ≤ max s.max_positions (length codes + shorts))
      × (distinct caps.bought_symbols ≡ true)
unfolding start_run_buy_caps
start_run_buy_caps-limits s codes reason shorts caps r =
    let w = Reached-Within s (start_run_buy_caps s codes reason shorts) caps refl r in
    (omega (arith, w.orders), w.positions, w.once)

-- The count of a sector, zero where sectors are not limited.
abbrev pub counted : String → Option Counter → ℕ
counted t none = 0
counted t (some counts) = count_of t counts

count_sector-cap :
    (s : Settings) (symbol t : String) (counts : Option Counter) (bound : ℕ)
    → 1 ≤ s.max_sector_positions
    → sector_is_full s counts symbol ≡ false
    → counted t counts ≤ max s.max_sector_positions bound
    → counted t (count_sector s symbol counts) ≤ max s.max_sector_positions bound
count_sector-cap s symbol t none bound p f h = h
count_sector-cap s symbol t (some counts) bound p f h =
    elim (Bool-cases (str_eq (s.sector symbol) t)) [
      | inl e ↦ ground (
        arith,
        f,
        h,
        bump-same (s.sector symbol) t counts e,
        count-same (s.sector symbol) t counts e,
      )
      | inr n ↦ omega (arith, h, bump-other (s.sector symbol) t counts n)
    ]

-- With a positive limit on sectors, no run takes a sector above the limit, or above its count at the
-- start where that was higher.
pub sector_counts-limit :
    (s : Settings) (start caps : RunBuyCaps) (t : String)
    → 1 ≤ s.max_sector_positions
    → Reached s start caps
    → counted t caps.sector_counts ≤ max s.max_sector_positions (counted t start.sector_counts)
unfolding record_buy
sector_counts-limit s start caps t p begun = omega arith
sector_counts-limit s start _ t p (bought {caps = caps} symbol r h) =
    count_sector-cap s symbol t caps.sector_counts _ p (check_buy-none s caps symbol h).4
      (sector_counts-limit s start caps t p r)
