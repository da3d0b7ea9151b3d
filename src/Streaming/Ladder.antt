-- ===== src/Streaming/Ladder.antt =====
-- src/subapps/schwab/streaming/ladder-recenter.util.ts: the window of strikes around the spot.
-- Prices, strikes and the increment are numbers of cents, so `Math.round(spot / increment)` is the
-- whole number nearest to the fraction, and half way goes up. A set of symbols is a list of texts.
pub mod Laws
pub mod Chunks
mod Tests
use nest_js_mega_backend.Prelude.{
  ℕ, zero, suc, ◌+◌, ◌-◌, ◌*◌, ◌/◌, Bool, true, false, not, ◌&&◌, ◌||◌, Option, none, some, List,
  [], ◌∷◌, String, ltb, leb, ◌==◌, if◌then◌else◌, length, take, drop, filter, has,
}
use nest_js_mega_backend.Prelude.Int.{ℤ, pos, sub_ℕ}

abbrev pub recenter_buffer_strikes : ℕ
recenter_buffer_strikes = 3

abbrev pub ladder_strike_all : ℕ
ladder_strike_all = 0

abbrev pub ladder_strike_choices : List ℕ
ladder_strike_choices = 8 ∷ 12 ∷ 16 ∷ 24 ∷ 32 ∷ ladder_strike_all ∷ []

abbrev pub ladder_strike_all_window : ℕ
ladder_strike_all_window = 200

abbrev pub default_ladder_strike_count : ℕ
default_ladder_strike_count = 16

abbrev pub includes : List ℕ → ℕ → Bool
includes [] n = false
includes (c ∷ cs) n = c == n || includes cs n

-- A count from the client, as it stands after `Math.round`: `none` is undefined, NaN, infinite or
-- negative, for all of which the code falls back to the default.
pub normalize_ladder_strike_count : Option ℕ → ℕ
normalize_ladder_strike_count none = default_ladder_strike_count
normalize_ladder_strike_count (some rounded) =
    if includes ladder_strike_choices rounded then rounded else default_ladder_strike_count

-- The fields `min` and `max`.
pub record Offsets : Type 0 where
  pub low : ℤ
  pub high : ℕ

pub window_total : Option ℕ → ℕ
unfolding normalize_ladder_strike_count
window_total count =
    let normalized = normalize_ladder_strike_count count in
    if normalized == ladder_strike_all then ladder_strike_all_window else normalized

pub ladder_strike_offsets : Option ℕ → Offsets
unfolding window_total
ladder_strike_offsets count =
    let total = window_total count in
    let below = (total - 1) / 2 in record { low = sub_ℕ 0 below; high = total - 1 - below }

unfoldable pub compute_nearest_strike : (spot_price strike_increment : ℕ) → ℕ
compute_nearest_strike spot_price strike_increment =
    (2 * spot_price + strike_increment) / (2 * strike_increment) * strike_increment

-- `Math.abs(a - b)`
abbrev pub distance : ℕ → ℕ → ℕ
distance a b = (a - b) + (b - a)

unfoldable pub should_recenter_ladder :
    (nearest_strike : ℕ) (center_strike : Option ℕ) (strike_increment : ℕ) (day_rolled_over : Bool)
    → Bool
should_recenter_ladder nearest_strike none strike_increment day_rolled_over = true
should_recenter_ladder nearest_strike (some center_strike) strike_increment day_rolled_over =
    day_rolled_over
    || leb (strike_increment * recenter_buffer_strikes) (distance nearest_strike center_strike)

pub record LadderSubscriptions : Type 0 where
  pub to_sub : List String
  pub to_unsub : List String

pub resolve_ladder_subscriptions :
    (new_window_symbols current_window_symbols pinned_symbols : List String) → LadderSubscriptions
resolve_ladder_subscriptions new_window_symbols current_window_symbols pinned_symbols = record {
  to_unsub =
      filter (λ symbol. not (has new_window_symbols symbol) && not (has pinned_symbols symbol))
        current_window_symbols;
  to_sub =
      filter (λ symbol. not (has current_window_symbols symbol) && not (has pinned_symbols symbol))
        new_window_symbols;
}

abbrev pub options_subscribe_chunk_size : ℕ
options_subscribe_chunk_size = 8

module _ {ℓ} {T : Type ℓ} where
  -- `for (let i = 0; i < items.length; i += chunkSize)`, on fuel
  pub chunk_from : ℕ → ℕ → List T → ℕ → List (List T)
  chunk_from zero chunk_size items i = []
  chunk_from (suc fuel) chunk_size items i =
      let rest =
        take chunk_size (drop i items) ∷ chunk_from fuel chunk_size items (i + chunk_size) in
      if ltb i (length items) then rest else []

  -- `none` is the exception. Each round takes an item at least.
  pub chunk_array : List T → ℕ → Option (List (List T))
  unfolding chunk_from
  chunk_array items zero = none
  chunk_array items (suc n) = some (chunk_from (length items) (suc n) items 0)
