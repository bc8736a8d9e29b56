-- ===== src/Money.antt =====
-- Decimals as whole counts of 10^-8, the scale to which the program rounds every cost (`_units` of
-- mixapi/runtime/budget.py, `quantize` of mixapi/app.py). Sums and products are exact here; Python's
-- decimals round at 28 digits.
use mixapi.Shared.{ℕ, ◌+◌, ◌*◌, ◌/◌, ◌%◌, ◌≤◌, arith, ltb, if◌then◌else◌, Option, some, or_else}
use mixapi.Shared.Int.{ℤ}

abbrev pub Decimal : Type 0
Decimal = ℤ

-- A price or a cost, which is never negative.
abbrev pub Money : Type 0
Money = ℕ

-- `candidate.pricing`: the two prices per million tokens, where a missing one counts as 0.
pub record Pricing : Type 0 where
  pub input_per_million : Option Money
  pub output_per_million : Option Money

abbrev pub million : ℕ
million = 1000000

-- `quantize(Decimal("0.00000001"))` of a count of 10^-14: round half to even.
unfoldable pub quantize : ℕ → Money
quantize a =
    let q = a / million in
    let r = a % million in
    if ltb (2 * r) million then q else if ltb million (2 * r) then q + 1 else q + q % 2

unfoldable pub estimate_cost : ℕ → ℕ → Pricing → Money
unfolding quantize
estimate_cost input_tokens output_tokens p =
    quantize (
      or_else p.input_per_million 0 * input_tokens + or_else p.output_per_million 0 * output_tokens)

quantize_error :
    (a : ℕ)
    → (2 * (quantize a * million) ≤ 2 * a + million)
      × (2 * a ≤ 2 * (quantize a * million) + million)
unfolding quantize
quantize_error a = ground arith

-- The cost of a dispatch is within half a unit of 10^-8 of the input tokens at the price of a million of
-- them, and the output tokens at theirs, together.
pub estimate_cost_error :
    (input_tokens output_tokens input_price output_price : ℕ)
    → let exact = input_price * input_tokens + output_price * output_tokens in
      let cost =
        estimate_cost input_tokens output_tokens (record {
          input_per_million = some input_price;
          output_per_million = some output_price;
        }) in
      (2 * (cost * million) ≤ 2 * exact + million) × (2 * exact ≤ 2 * (cost * million) + million)
unfolding estimate_cost
estimate_cost_error input_tokens output_tokens input_price output_price =
    quantize_error (input_price * input_tokens + output_price * output_tokens)
