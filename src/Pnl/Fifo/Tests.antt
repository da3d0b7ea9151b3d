-- ===== src/Pnl/Fifo/Tests.antt =====
-- The first-in first-out matcher, src/subapps/schwab/pnl/fifo-matcher.util.ts, on concrete fills.
use nest_js_mega_backend.Prelude.{ℕ, ◌≡◌, refl, none, List, [], ◌∷◌, String, All, inl, arith, true}
use nest_js_mega_backend.Prelude.Int.{ℤ, pos, negsuc, ◌+ℤ◌, ◌-ℤ◌, ◌*ℕ◌}
use nest_js_mega_backend.Pnl.Fifo.{
  FifoFillInput, FillInstruction, OpenLot, OrderSource, TradeDirection, absorb, match_sorted,
  match_fills, contract_multiplier, compute_trading_pnl,
}
use nest_js_mega_backend.Pnl.Fifo.Absorb.{IsAbsorbed, absorb-IsAbsorbed}
use nest_js_mega_backend.Pnl.Fifo.Book.{IsMatched, match_sorted-IsMatched}
use nest_js_mega_backend.Pnl.Fifo.Money.{match_sorted_money, pnl, cost, paid}
use nest_js_mega_backend.Pnl.Fifo.Grouping.{match_fills-IsTraced, IsTraced}

abbrev fill : String → FillInstruction → ℤ → ℕ → ℕ → FifoFillInput
fill id instruction quantity price time = record {
  id = id;
  symbol = "SPY";
  instruction = instruction;
  quantity = quantity;
  price = price;
  transaction_date = time;
  position_effect = none;
  source = none;
}

-- two buys, then a sale that closes both and opens a short
abbrev three_fills : List FifoFillInput
three_fills =
    fill "a" FillInstruction.buy (pos 3) 100 1
    ∷ fill "b" FillInstruction.buy (pos 2) 110 2
    ∷ fill "c" FillInstruction.sell (pos 7) 120 3
    ∷ []

abbrev one_lot : List OpenLot
one_lot =
    record {
      fill_id = "a";
      remaining = 3;
      price = 100;
      opened_at = 1;
      direction = TradeDirection.long;
    }
    ∷ []

abbrev sale : FifoFillInput
sale = fill "c" FillInstruction.sell (pos 7) 120 3

option_symbol : contract_multiplier "SPY   250117C00500000" ≡ 100
unfolding contract_multiplier
option_symbol = refl

share_symbol : contract_multiplier "SPY" ≡ 1
unfolding contract_multiplier
share_symbol = refl

net_of_transfers : compute_trading_pnl (pos 100) (pos 130) (pos 50) ≡ negsuc 19
unfolding compute_trading_pnl ◌-ℤ◌
net_of_transfers = ground arith

absorb-IsAbsorbed_example :
    IsAbsorbed TradeDirection.long
      (negsuc 6)
      one_lot
      (absorb 2 OrderSource.manual_live 1 sale (negsuc 6) one_lot)
absorb-IsAbsorbed_example =
    absorb-IsAbsorbed OrderSource.manual_live 1 sale 2 TradeDirection.long (negsuc 6) one_lot
      (omega arith) ((refl, omega arith), tt)

match_sorted-IsMatched_example :
    let r = match_sorted OrderSource.manual_live 1 three_fills [] in
    IsMatched three_fills [] r.0 r.1
match_sorted-IsMatched_example =
    match_sorted-IsMatched OrderSource.manual_live 1 three_fills [] (inl tt)

match_sorted_money_example :
    let r = match_sorted OrderSource.manual_live 1 three_fills one_lot in
    pnl r.1 +ℤ (cost one_lot +ℤ paid three_fills) *ℕ 1 ≡ cost r.0 *ℕ 1
match_sorted_money_example =
    match_sorted_money OrderSource.manual_live 1 three_fills one_lot (inl ((refl, omega arith), tt))

match_fills-IsTraced_example : All (IsTraced three_fills) (match_fills (λ a b. true) three_fills)
match_fills-IsTraced_example = match_fills-IsTraced (λ a b. true) three_fills
