-- ===== src/Scheduler/Weekdays.antt =====
-- `_WEEKDAY_MAP` and `_parse_day_of_week` of python/src/orchestration/scheduler_queue.py. A text is
-- a list of code points; a set of weekdays is a list of numbers without order.
use mathlib.Core.List.{reverse}
use stock_fixer.Prelude.{
  ℕ, zero, suc, ◌+◌, ◌-◌, ◌<◌, ◌≤◌, Bool-cases, Option-cases, inl, inr, Bool, true, false, ◌&&◌,
  ◌||◌, Option, none, some, List, [], ◌∷◌, ◌++◌, String, leb, ◌==◌, if◌then◌else◌, codes, ◌≡◌, refl,
  arith, All, map,
}

-- `weekday_number "mon"` is 0: the lookup in `_WEEKDAY_MAP`.
pub weekday_number : List ℕ → Option ℕ
weekday_number (a ∷ b ∷ c ∷ []) =
    if a == b'm' && (b == b'o' && c == b'n')
    then some 0
    else if a == b't' && (b == b'u' && c == b'e')
    then some 1
    else if a == b'w' && (b == b'e' && c == b'd')
    then some 2
    else if a == b't' && (b == b'h' && c == b'u')
    then some 3
    else if a == b'f' && (b == b'r' && c == b'i')
    then some 4
    else if a == b's' && (b == b'a' && c == b't')
    then some 5
    else if a == b's' && (b == b'u' && c == b'n')
    then some 6
    else none
weekday_number _ = none

-- `str.lower` on ASCII.
abbrev pub lower : ℕ → ℕ
lower c = if leb b'A' c && leb c b'Z' then c + 32 else c

-- ASCII white space of `str.strip`.
abbrev pub is_space : ℕ → Bool
is_space c = c == 32 || (leb 9 c && leb c 13)

unfoldable pub strip_left : List ℕ → List ℕ
strip_left [] = []
strip_left (c ∷ s) = if is_space c then strip_left s else c ∷ s

-- `str.strip`
unfoldable pub strip : List ℕ → List ℕ
strip s = reverse (strip_left (reverse (strip_left s)))

-- `str.split(sep)`: never the empty list.
pub split : ℕ → List ℕ → List (List ℕ)
split sep [] = [] ∷ []
split sep (c ∷ s) = elim (split sep s) [
  | [] ↦ [] ∷ []
  | part ∷ rest ↦ if c == sep then [] ∷ part ∷ rest else (c ∷ part) ∷ rest
]

-- `token.split("-", 1)` of a token that holds a dash, and `none` of one that does not.
pub split_dash : List ℕ → Option (List ℕ × List ℕ)
split_dash [] = none
split_dash (c ∷ s) =
    let rest = split_dash s in
    if c == b'-' then some ([], s) else elim rest [ none ↦ none | some (a, b) ↦ some (c ∷ a, b) ]

-- `range(start, end)` with `n` members left.
pub range_from : ℕ → ℕ → List ℕ
range_from start zero = []
range_from start (suc n) = start ∷ range_from (start + 1) n

-- The days of `start-end`, over the weekend if the end comes first.
pub day_range : ℕ → ℕ → List ℕ
day_range start end =
    if leb start end
    then range_from start (end + 1 - start)
    else range_from start (7 - start) ++ range_from 0 (end + 1)

abbrev single_day : Option ℕ → List ℕ
single_day none = []
single_day (some value) = value ∷ []

abbrev span_days : Option ℕ → Option ℕ → List ℕ
span_days (some start) (some end) = day_range start end
span_days none _ = []
span_days (some start) none = []

pub token_days : List ℕ → List ℕ
token_days token = elim (split_dash token) [
  | some (start_text, end_text) ↦ span_days (weekday_number start_text) (weekday_number end_text)
  | none ↦ single_day (weekday_number token)
]

pub tokens_days : List (List ℕ) → List ℕ
tokens_days [] = []
tokens_days (part ∷ rest) = token_days (strip part) ++ tokens_days rest

-- `not expr or expr == "*"`
unfoldable pub is_every_day : List ℕ → Bool
is_every_day [] = true
is_every_day (c ∷ []) = c == b'*'
is_every_day _ = false

-- The empty list stands for every day.
unfoldable pub parse_day_of_week : String → List ℕ
parse_day_of_week text =
    let expr = map lower (strip (codes text)) in
    if is_every_day expr then [] else tokens_days (split b',' expr)

-- Tests on the schedules of run_scheduler.py.
parse-mon_fri : parse_day_of_week "mon-fri" ≡ 0 ∷ 1 ∷ 2 ∷ 3 ∷ 4 ∷ []
unfolding parse_day_of_week is_every_day strip strip_left split tokens_days token_days split_dash
    weekday_number day_range range_from
parse-mon_fri = refl

parse-list : parse_day_of_week " SAT-mon, wed,foo" ≡ 5 ∷ 6 ∷ 0 ∷ 2 ∷ []
unfolding parse_day_of_week is_every_day strip strip_left split tokens_days token_days split_dash
    weekday_number day_range range_from
parse-list = refl

weekday_number-lt : (s : List ℕ) (n : ℕ) → weekday_number s ≡ some n → n < 7
unfolding weekday_number
weekday_number-lt (a ∷ b ∷ c ∷ []) n h = ground arith
weekday_number-lt s n h = cc

All-append :
    (xs ys : List ℕ) → All (λ d. d < 7) xs → All (λ d. d < 7) ys → All (λ d. d < 7) (xs ++ ys)
All-append [] ys hx hy = hy
All-append (x ∷ xs) ys hx hy = (hx.0, All-append xs ys hx.1 hy)

range_from-lt : (start n : ℕ) → start + n ≤ 7 → All (λ d. d < 7) (range_from start n)
unfolding range_from
range_from-lt start zero h = tt
range_from-lt start (suc n) h = (omega arith, range_from-lt (start + 1) n (omega arith))

day_range-lt : (start end : ℕ) → start < 7 → end < 7 → All (λ d. d < 7) (day_range start end)
unfolding day_range
day_range-lt start end hs he = elim (Bool-cases (leb start end)) [
  | inl e ↦ rw e (range_from-lt start (end + 1 - start) (omega arith))
  | inr e ↦ rw e (
      All-append (range_from start (7 - start)) (range_from 0 (end + 1))
        (range_from-lt start (7 - start) (omega arith)) (range_from-lt 0 (end + 1) (omega arith)))
]

span_days-lt : (a b : List ℕ) → All (λ d. d < 7) (span_days (weekday_number a) (weekday_number b))
span_days-lt a b = elim (Option-cases (weekday_number a)) [
  | inl e ↦ rw e tt
  | inr (v, e) ↦ elim (Option-cases (weekday_number b)) [
    | inl k ↦ rw (e, k) tt
    | inr (w, k) ↦ rw (e, k) (day_range-lt v w (weekday_number-lt a v e) (weekday_number-lt b w k))
  ]
]

single_day-lt : (token : List ℕ) → All (λ d. d < 7) (single_day (weekday_number token))
single_day-lt token = elim (Option-cases (weekday_number token)) [
  | inl e ↦ rw e tt
  | inr (v, e) ↦ rw e (weekday_number-lt token v e, tt)
]

token_days-lt : (token : List ℕ) → All (λ d. d < 7) (token_days token)
unfolding token_days
token_days-lt token = elim (Option-cases (split_dash token)) [
  | inl e ↦ rw (e, token_days) (single_day-lt token)
  | inr ((a, b), e) ↦ rw (e, token_days) (span_days-lt a b)
]

tokens_days-lt : (parts : List (List ℕ)) → All (λ d. d < 7) (tokens_days parts)
unfolding tokens_days
tokens_days-lt [] = tt
tokens_days-lt (p ∷ rest) =
    All-append (token_days (strip p)) (tokens_days rest) (token_days-lt (strip p))
      (tokens_days-lt rest)

-- Whatever the expression, only weekday numbers from 0 to 6 come out.
pub parse_day_of_week-lt : (text : String) → All (λ d. d < 7) (parse_day_of_week text)
unfolding parse_day_of_week
parse_day_of_week-lt text = elim (Bool-cases (is_every_day expr)) [
  | inl e ↦ rw e tt
  | inr e ↦ rw e (tokens_days-lt (split b',' expr))
]
  where
    expr : List ℕ
    expr = map lower (strip (codes text))
