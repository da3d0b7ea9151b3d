-- ===== src/BotV2/Tests.antt =====
-- The trainer's exits, bot-v2-profit-lock.util.ts and bot-v2-tick-exit.util.ts, on exact fractions
-- and on whole cents.
use nest_js_mega_backend.Prelude.{
  ℕ, [], ◌∷◌, All, ◌↔◌, ◌+◌, ◌*◌, ◌≤◌, ◌<◌, ◌≡◌, ◌≢◌, refl, true, false, none, some, arith,
}
use nest_js_mega_backend.Prelude.Double.{Double, ◌≼◌, lit}
use nest_js_mega_backend.Prelude.Frac.{Frac, frac_double, Frac-IsOrdered}
use nest_js_mega_backend.Prelude.Cents.{cents_double, Cents-IsOrdered}
use nest_js_mega_backend.Bot.Exit.{BotDirection, SoftExitReason}
use nest_js_mega_backend.BotV2.ProfitLock.{
  ProfitLockInput, ratchet_profit_lock, round2, disaster_stop_bid, bid_for_return_pct,
}
use nest_js_mega_backend.BotV2.TickExit.{TickExitInput, decide_tick_exit, scale_out_quantity}
use nest_js_mega_backend.BotV2.TickExit.Laws.{
  IsSale, ratchet_of, soft_of, decide_tick_exit-IsSale, decide_tick_exit_no_self_stop,
}
use nest_js_mega_backend.BotV2.TickExit.Warrant.{IsWarranted, decide_tick_exit-IsWarranted}
use nest_js_mega_backend.BotV2.Sizing.{
  SizeAtRiskInput, size_at_risk, trainer_max_contracts, ok, IsCovered, size_at_risk-IsCovered,
}
use nest_js_mega_backend.BotV2.Bars.{
  BotCandle, push_price_bar, expand_completed_minutes, minute_of, flat_bar,
}
use nest_js_mega_backend.BotV2.Bars.Laws.{
  IsBar, IsBarOrNone, prints_of, IsPast, push_price_bar-IsBar, expand_completed_minutes-IsPast,
}

module _ {N : Type 0} ⦃d : Double N⦄ where
  -- Four contracts bought at 5.00 whose bid has reached 6.00.
  abbrev lock : ProfitLockInput N
  lock = record {
    entry_premium = lit 5;
    option_bid = lit 6;
    peak_bid = some (d.dec 55 1);
    stop_premium = some (lit 4);
    quantity = 4;
    commission_round_trip = lit 5;
    ladder = none;
  }

  abbrev tick : TickExitInput N
  tick = record {
    lock = lock;
    levels = record {
      direction = some BotDirection.call;
      spot = lit 500;
      target_premium = none;
      stop_underlying = some (lit 495);
      target_underlying = some (lit 510);
    };
    use_scale_out = true;
    scaled_out = false;
    quantity = 4;
    entry_premium = lit 5;
    use_time_stop = some true;
    opened_at = some 0;
    peak_at = some 1000;
    now = some 2000;
    time_stop_seconds = none;
  }

half_sold : scale_out_quantity 5 ≡ 2
unfolding scale_out_quantity
half_sold = refl

round2_mono : (a b : ℕ) → a ≼ b → round2 a ≼ round2 b
unfolding round2
round2_mono a b h = ground arith

abbrev cents_lock : ProfitLockInput ℕ
cents_lock = lock

decide_tick_exit-IsSale_example :
    IsSale {N = Frac} 4 (decide_tick_exit tick)
    × (ratchet_of {N = Frac} (decide_tick_exit tick) ≡ ratchet_profit_lock lock)
decide_tick_exit-IsSale_example = decide_tick_exit-IsSale {N = Frac} tick

decide_tick_exit-IsWarranted_example :
    IsWarranted {N = Frac} tick BotDirection.call (decide_tick_exit tick)
decide_tick_exit-IsWarranted_example =
    decide_tick_exit-IsWarranted {N = Frac} tick BotDirection.call refl

decide_tick_exit_no_self_stop_example :
    (soft_of {N = ℕ} tick ≢ some SoftExitReason.trail_stop)
    × (soft_of {N = ℕ} tick ≢ some SoftExitReason.premium_stop)
unfolding round2 disaster_stop_bid bid_for_return_pct
decide_tick_exit_no_self_stop_example =
    decide_tick_exit_no_self_stop Cents-IsOrdered round2_mono tick 599 refl refl refl refl

-- Two dollars for a contract whose stop lies at 1.80.
abbrev order : SizeAtRiskInput Frac
order = record {
  use_risk_at_stop = true;
  max_risk_usd = lit 50;
  ask = lit 2;
  stop_premium = some (frac_double.dec 18 1);
  settled_cash = lit 10_000;
  equity = lit 10_000;
  risk_pct = lit 5;
}

size_at_risk-IsCovered_example :
    let r = size_at_risk order in
    (r.qty ≤ trainer_max_contracts)
    × ((r.reason ≡ ok) ↔ (0 < r.qty))
    × (0 < r.qty → IsCovered order r.qty)
size_at_risk-IsCovered_example = size_at_risk-IsCovered order

abbrev bar : BotCandle Frac
bar = flat_bar (lit 500) 60_000 3

push_price_bar-IsBar_example :
    let r = push_price_bar (some bar) (lit 501) 70_000 15 in
    IsBar Frac-IsOrdered r.current
    × IsBarOrNone Frac-IsOrdered r.closed
    × (r.current.close ≡ lit 501)
    × (r.current.chart_time ≤ 70_000)
    × (70_000 < r.current.chart_time + 15 * 1000)
    × (r.current.volume + prints_of Frac-IsOrdered r.closed ≡ 3 + 1)
push_price_bar-IsBar_example =
    let same = Frac-IsOrdered.le_refl (lit 500) in
    push_price_bar-IsBar Frac-IsOrdered (some bar) (lit 501) 70_000 15 (omega arith)
      record { low_open = same; low_close = same; open_high = same; close_high = same }

expand_completed_minutes-IsPast_example :
    All (IsPast Frac-IsOrdered (minute_of 130_000)) (expand_completed_minutes (bar ∷ []) 130_000)
expand_completed_minutes-IsPast_example =
    expand_completed_minutes-IsPast Frac-IsOrdered (bar ∷ []) 130_000 (refl, tt)
