-- ===== src/Trading/Losses.antt =====
-- `count_leading_losses` of python/src/trading/consecutive_losses.py. A profit is an integer here.
use stock_fixer.Prelude.{
  ℕ, suc, ◌≡◌, refl, inl, inr, Bool, true, false, List, [], ◌∷◌, if◌then◌else◌, Bool-cases, take,
  drop, all,
}
use stock_fixer.Prelude.Int.{ℤ, pos, ltb_ℤ}

-- `pnl < 0`
abbrev pub is_loss : ℤ → Bool
is_loss pnl = ltb_ℤ pnl (pos 0)

pub count_leading_losses : List ℤ → ℕ
count_leading_losses [] = 0
count_leading_losses (pnl ∷ rows) =
    let count = count_leading_losses rows in if is_loss pnl then suc count else 0

-- The next row ends the count: there is none, or it is no loss.
abbrev pub Ends : List ℤ → Type 0
Ends [] = Unit
Ends (pnl ∷ rows) = is_loss pnl ≡ false

-- The counted rows are all losses, and the row after them is no loss, or there is none: the count is
-- that of the longest run of losses at the newest end.
count_leading_losses_lem :
    (rows : List ℤ)
    → (all is_loss (take (count_leading_losses rows) rows) ≡ true)
      × Ends (drop (count_leading_losses rows) rows)
unfolding count_leading_losses all
count_leading_losses_lem [] = (refl, tt)
count_leading_losses_lem (pnl ∷ rows) = elim (Bool-cases (is_loss pnl)) [
  | inl y ↦ let (a, b) = count_leading_losses_lem rows in rw y (rw (y, a) refl, b)
  | inr n ↦ rw n (refl, n)
]
