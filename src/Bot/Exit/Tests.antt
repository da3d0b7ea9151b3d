-- ===== src/Bot/Exit/Tests.antt =====
-- The exits of the bot, bot-exit.util.ts, on exact fractions.
use nest_js_mega_backend.Prelude.{ℕ, ◌≡◌, ◌≢◌, refl, true, false, none, some}
use nest_js_mega_backend.Prelude.Double.{IsUnder, ◌≼◌, lit}
use nest_js_mega_backend.Prelude.Frac.{Frac, frac_double, Frac-IsOrdered}
use nest_js_mega_backend.Bot.Exit.{
  BotDirection, RatchetStopInput, SoftExitCheckInput, SoftExitReason, StopPremiumSource,
  decide_soft_exit, ratchet_premium_stop,
}
use nest_js_mega_backend.Bot.Exit.Ratchet.{ratchet_premium_stop_monotone}
use nest_js_mega_backend.Bot.Exit.SoftExit.{ratchet_no_self_stop}

abbrev cents : ℕ → Frac
cents n = frac_double.dec n 2

-- A trade bought at 5.00 whose bid has reached 6.00, twenty percent up.
abbrev tick : RatchetStopInput Frac
tick = record {
  entry_premium = cents 500;
  option_bid = cents 600;
  peak_bid = some (cents 550);
  stop_premium = some (cents 400);
  trail_armed = false;
  trail_arm_pct = lit 10;
  trail_pct = lit 8;
  breakeven_bid = cents 502;
  min_lock_bid = cents 510;
}

abbrev check : SoftExitCheckInput Frac
check = record {
  direction = some BotDirection.put;
  spot = lit 500;
  option_bid = some (cents 300);
  stop_premium = some (cents 400);
  target_premium = none;
  stop_underlying = some (lit 505);
  target_underlying = some (lit 490);
  stop_premium_source = some StopPremiumSource.trail;
}

closes : decide_soft_exit check ≡ some SoftExitReason.trail_stop
unfolding decide_soft_exit
closes = refl

ratchet_premium_stop_monotone_example :
    let r = ratchet_premium_stop tick in
    IsUnder (some (cents 400)) r.stop_premium
    × IsUnder (some (cents 550)) (some r.peak_bid)
    × (cents 600 ≼ r.peak_bid)
    × (false ≡ true → r.trail_armed ≡ true)
ratchet_premium_stop_monotone_example = ratchet_premium_stop_monotone Frac-IsOrdered tick

ratchet_no_self_stop_example :
    let r = ratchet_premium_stop tick in
    let decision = decide_soft_exit {N = Frac} (record {
      direction = some BotDirection.call;
      spot = lit 500;
      option_bid = some (cents 600);
      stop_premium = r.stop_premium;
      target_premium = none;
      stop_underlying = none;
      target_underlying = none;
      stop_premium_source = some r.source;
    }) in
    (decision ≢ some SoftExitReason.trail_stop) × (decision ≢ some SoftExitReason.premium_stop)
ratchet_no_self_stop_example =
    ratchet_no_self_stop Frac-IsOrdered tick BotDirection.call (lit 500) none none none refl refl
      refl
