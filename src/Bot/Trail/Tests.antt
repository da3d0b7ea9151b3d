-- ===== src/Bot/Trail/Tests.antt =====
-- The trail of a position on exact fractions: a run up, a restart, and the bid at which it closes.
use nest_js_mega_backend.Prelude.{◌≡◌, refl, true, false, none, some, List, [], ◌∷◌}
use nest_js_mega_backend.Prelude.Double.{lit, IsUnder}
use nest_js_mega_backend.Prelude.Frac.{Frac, frac_double, Frac-IsOrdered}
use nest_js_mega_backend.Bot.Exit.{
  BotDirection, SoftExitReason, StopPremiumSource, decide_soft_exit,
}
use nest_js_mega_backend.BotV2.ProfitLock.{
  default_profit_lock, ratchet_profit_lock, locked_return_for, return_on_cost_pct,
  disaster_stop_bid, bid_for_return_pct, round2,
}
use nest_js_mega_backend.Bot.Trail.{
  Trail, TrailPosition, TrailState, Tick, TrailEvent, tick_event, heartbeat_event, restart_event,
  restarted, ensure_trail_state, flush_trail_state, run_trail,
}
use nest_js_mega_backend.Bot.Trail.Laws.{IsClimbed}
use nest_js_mega_backend.Bot.Trail.Levels.{current_stop, current_peak}
use nest_js_mega_backend.Bot.Trail.InForce.{run_trail-IsClimbed}
use nest_js_mega_backend.Bot.Trail.Restart.{ensure_trail_state-flush_trail_state}

abbrev position : TrailPosition Frac
position = record {
  symbol = "SPY   250117C00501000";
  quantity = 2;
  entry_price = lit 2;
  direction = some BotDirection.call;
  stop_premium = some (lit 1);
  target_premium = none;
  initial_stop_premium = some (lit 1);
  peak_bid = some (lit 2);
  trail_armed = some false;
  stop_premium_source = some StopPremiumSource.initial;
}

abbrev opened : TrailState Frac
opened = record {
  trail = none;
  last_premium_quote_at = 0;
  last_premium_bid_at = none;
  open_position = some position;
  has_lane = true;
}

abbrev tick_at : Frac → Tick Frac
tick_at bid = record {
  now_ms = 1000;
  spot = lit 500;
  streamed = some (record { bid = some bid; at = 500 });
  fetched = none;
}

-- The stop follows the bid up to four dollars, and the service restarts.
abbrev events : List (TrailEvent Frac)
events =
    heartbeat_event (some (tick_at (lit 3)))
    ∷ tick_event (tick_at (lit 4))
    ∷ heartbeat_event none
    ∷ restart_event
    ∷ heartbeat_event none
    ∷ []

-- After the restart the bid goes on to five dollars.
abbrev calm : List (TrailEvent Frac)
calm = heartbeat_event none ∷ tick_event (tick_at (lit 5)) ∷ heartbeat_event none ∷ []

run_trail-IsClimbed_example :
    let now = (run_trail (lit 2) default_profit_lock events opened).state in
    let later = (run_trail (lit 2) default_profit_lock calm now).state in
    IsClimbed Frac-IsOrdered position now
    × IsUnder (current_stop now) (current_stop later)
    × IsUnder (current_peak now) (current_peak later)
run_trail-IsClimbed_example =
    run_trail-IsClimbed Frac-IsOrdered (lit 2) default_profit_lock events calm position opened refl
      tt tt

abbrev trail : Trail Frac
trail = record {
  symbol = "SPY   250117C00501000";
  entry_premium = lit 2;
  quantity = 2;
  commission_round_trip = lit 2;
  ladder = default_profit_lock;
  peak_bid = lit 4;
  trail_armed = true;
  stop_premium = some (lit 3);
  source = StopPremiumSource.trail;
  dirty = true;
}

ensure_trail_state-flush_trail_state_example :
    let st' =
      restarted
        (flush_trail_state (record opened { trail = some trail; open_position = some position })) in
    (q : TrailPosition Frac) × (st'.open_position ≡ some q)
    × ((ensure_trail_state (lit 2) default_profit_lock q st').trail
        ≡ some (record trail { dirty = false }))
ensure_trail_state-flush_trail_state_example =
    ensure_trail_state-flush_trail_state trail position opened refl refl refl refl

-- After the restart a bid of three dollars is under the stop of the peak of four.
closes :
    (run_trail
      (lit 2)
      default_profit_lock
      (heartbeat_event (some (tick_at (lit 3)))
        ∷ tick_event (tick_at (lit 4))
        ∷ heartbeat_event none
        ∷ restart_event
        ∷ heartbeat_event (some (tick_at (lit 3)))
        ∷ [])
      opened).reason
    ≡ some SoftExitReason.trail_stop
unfolding run_trail ensure_trail_state flush_trail_state decide_soft_exit ratchet_profit_lock
    locked_return_for return_on_cost_pct disaster_stop_bid bid_for_return_pct round2
closes = refl
