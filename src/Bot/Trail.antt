-- ===== src/Bot/Trail.antt =====
-- The tick path of the engine, `checkSoftStopAndTargets`, `ensureTrailState` and `flushTrailState` of
-- src/subapps/schwab/bot/bot-engine.service.ts: the trail that is kept in memory, the stop that is
-- written to the row of the bot, and the reason to close. The closing itself stands in Bot.State. The
-- flags against a second check at the same time, the tape of samples and the event of a raised stop,
-- which change none of this, are left out.
pub mod Laws
pub mod Levels
pub mod Held
pub mod InForce
pub mod Restart
mod Tests
use nest_js_mega_backend.Prelude.{
  ℕ, ◌-◌, Bool, true, false, not, ◌&&◌, ◌||◌, Option, none, some, List, [], ◌∷◌, String, ◌===◌, leb,
  if◌then◌else◌, is_some, or_else,
}
use nest_js_mega_backend.Prelude.Double.{Double}
use nest_js_mega_backend.Bot.Exit.{
  BotDirection, StopPremiumSource, SoftExitReason, RatchetStopResult, decide_soft_exit,
}
use nest_js_mega_backend.BotV2.ProfitLock.{ProfitLockLadder, ProfitLockInput, ratchet_profit_lock}

abbrev pub premium_stream_max_age_ms : ℕ
premium_stream_max_age_ms = 2_000

abbrev pub premium_rest_fallback_min_ms : ℕ
premium_rest_fallback_min_ms = 3_000

pub record Trail (N : Type 0) : Type 0 where
  pub symbol : String
  pub entry_premium : N
  pub quantity : ℕ
  pub commission_round_trip : N
  pub ladder : ProfitLockLadder N
  pub peak_bid : N
  pub trail_armed : Bool
  pub stop_premium : Option N
  pub source : StopPremiumSource
  pub dirty : Bool

-- Of the open position, the fields that the tick path reads or writes. `direction` is that of the
-- position or else of the last signal.
pub record TrailPosition (N : Type 0) : Type 0 where
  pub symbol : String
  pub quantity : ℕ
  pub entry_price : N
  pub direction : Option BotDirection
  pub stop_premium : Option N
  pub target_premium : Option N
  pub initial_stop_premium : Option N
  pub peak_bid : Option N
  pub trail_armed : Option Bool
  pub stop_premium_source : Option StopPremiumSource

-- The memory of the engine beside what the database keeps.
pub record TrailState (N : Type 0) : Type 0 where
  pub trail : Option (Trail N)
  pub last_premium_quote_at : ℕ
  pub last_premium_bid_at : Option ℕ
  -- the row: the open position, and whether there is a lane
  pub open_position : Option (TrailPosition N)
  pub has_lane : Bool

pub record StreamedBid (N : Type 0) : Type 0 where
  pub bid : Option N
  pub at : ℕ

pub record Quoted (N : Type 0) : Type 0 where
  pub option_bid : Option N
  pub quote_at : ℕ

pub record TrailResult (N : Type 0) : Type 0 where
  pub state : TrailState N
  pub reason : Option SoftExitReason

pub record Tick (N : Type 0) : Type 0 where
  pub now_ms : ℕ
  pub spot : N
  pub streamed : Option (StreamedBid N)
  -- the bid that a call of the broker would return, `none` where there is none or it fails
  pub fetched : Option N

pub data TrailEvent (N : Type 0) : Type 0 where
  tick_event : Tick N → TrailEvent N
  heartbeat_event : Option (Tick N) → TrailEvent N
  restart_event : TrailEvent N

module _ {N : Type 0} where
  -- the trail of the position, if the memory has it
  abbrev pub trail_of : String → Option (Trail N) → Option (Trail N)
  trail_of symbol none = none
  trail_of symbol (some trail) = if trail.symbol === symbol then some trail else none

  abbrev pub fresh_bid : (now_ms : ℕ) → Option (StreamedBid N) → Option N
  fresh_bid now_ms none = none
  fresh_bid now_ms (some streamed) =
      if leb (now_ms - streamed.at) premium_stream_max_age_ms then streamed.bid else none

  -- The bid of a tick, and the time of the last call of the broker.
  abbrev pub bid_for : (needs_premium : Bool) → Tick N → (last_premium_quote_at : ℕ) → Quoted N
  bid_for needs_premium tick last_at =
      if not needs_premium
      then record { option_bid = none; quote_at = last_at }
      else elim (fresh_bid tick.now_ms tick.streamed) [
        | some bid ↦ record { option_bid = some bid; quote_at = last_at }
        | none ↦
            if leb premium_rest_fallback_min_ms (tick.now_ms - last_at)
            then record { option_bid = tick.fetched; quote_at = tick.now_ms }
            else record { option_bid = none; quote_at = last_at }
      ]

  -- A trail that the memory has for the symbol is kept; else one is made of the position.
  abbrev pub rehydrated :
      (commission_round_trip : N) → ProfitLockLadder N → TrailPosition N → Trail N
  rehydrated commission ladder position = record {
    symbol = position.symbol;
    entry_premium = position.entry_price;
    quantity = position.quantity;
    commission_round_trip = commission;
    ladder = ladder;
    peak_bid = or_else position.peak_bid position.entry_price;
    trail_armed = or_else position.trail_armed false;
    stop_premium = position.stop_premium;
    source = or_else position.stop_premium_source StopPremiumSource.initial;
    dirty = false;
  }

  abbrev pub ensure_held :
      (commission_round_trip : N)
      → ProfitLockLadder N
      → TrailPosition N
      → (held : Option (Trail N)) → TrailState N
      → TrailState N
  ensure_held commission ladder position none st = record st {
    trail = some (rehydrated commission ladder position);
  }
  ensure_held commission ladder position (some trail) st = st

  unfoldable pub ensure_trail_state :
      (commission_round_trip : N)
      → ProfitLockLadder N
      → TrailPosition N
      → TrailState N
      → TrailState N
  ensure_trail_state commission ladder position st =
      ensure_held commission ladder position (trail_of position.symbol st.trail) st

  abbrev pub stamped : Trail N → TrailPosition N → TrailPosition N
  stamped trail position = record position {
    initial_stop_premium = elim position.initial_stop_premium [
      | none ↦ position.stop_premium
      | some initial ↦ some initial
    ];
    peak_bid = some trail.peak_bid;
    trail_armed = some trail.trail_armed;
    stop_premium = trail.stop_premium;
    stop_premium_source = some trail.source;
  }

  -- a trail that has changed, and the position of the row
  abbrev pub write_trail : Trail N → Option (TrailPosition N) → TrailState N → TrailState N
  write_trail trail none st = record st { trail = none }
  write_trail trail (some position) st =
      if position.symbol === trail.symbol
      then record st {
        open_position = some (stamped trail position);
        trail = some (record trail { dirty = false });
      }
      else record st { trail = none }

  -- The memory is lost, the row is kept.
  abbrev pub restarted : TrailState N → TrailState N
  restarted st = record st { trail = none; last_premium_quote_at = 0; last_premium_bid_at = none }

  abbrev pub flush_of : Option (Trail N) → TrailState N → TrailState N
  flush_of none st = st
  flush_of (some trail) st = if trail.dirty then write_trail trail st.open_position st else st

  unfoldable pub flush_trail_state : TrailState N → TrailState N
  flush_trail_state st = flush_of st.trail st

module _ {N : Type 0} ⦃d : Double N⦄ where
  abbrev pub ratchet_input : Trail N → (bid : N) → ProfitLockInput N
  ratchet_input trail bid = record {
    entry_premium = trail.entry_premium;
    option_bid = bid;
    peak_bid = some trail.peak_bid;
    stop_premium = trail.stop_premium;
    quantity = trail.quantity;
    commission_round_trip = trail.commission_round_trip;
    ladder = some trail.ladder;
  }

  abbrev pub ratchet_of : Trail N → (bid : N) → RatchetStopResult N
  ratchet_of trail bid = ratchet_profit_lock (ratchet_input trail bid)

  abbrev pub ratcheted : Trail N → RatchetStopResult N → Trail N
  ratcheted trail r = record trail {
    peak_bid = r.peak_bid;
    trail_armed = r.trail_armed;
    stop_premium = r.stop_premium;
    source = r.source;
    dirty = trail.dirty || r.raised;
  }

  -- The trail after a tick; without a trail or a bid nothing is raised.
  abbrev pub trail_after : Option (Trail N) → (option_bid : Option N) → Option (Trail N)
  trail_after none option_bid = none
  trail_after (some trail) none = some trail
  trail_after (some trail) (some bid) = some (ratcheted trail (ratchet_of trail bid))

  -- The stop in force and its source: those of the trail, or else of the position.
  abbrev pub stop_in_force : Option (Trail N) → TrailPosition N → Option N
  stop_in_force none position = position.stop_premium
  stop_in_force (some trail) position = trail.stop_premium

  abbrev pub source_in_force : Option (Trail N) → TrailPosition N → Option StopPremiumSource
  source_in_force none position = position.stop_premium_source
  source_in_force (some trail) position = some trail.source

  abbrev pub decision_of :
      Option (Trail N)
      → TrailPosition N
      → (spot : N) → (option_bid : Option N) → Option SoftExitReason
  decision_of trail position spot option_bid = decide_soft_exit (record {
    direction = position.direction;
    spot = spot;
    option_bid = option_bid;
    stop_premium = stop_in_force trail position;
    target_premium = none;
    stop_underlying = none;
    target_underlying = none;
    stop_premium_source = source_in_force trail position;
  })

  abbrev pub stamp_bid : (now_ms : ℕ) → Option N → Option ℕ → Option ℕ
  stamp_bid now_ms none last = last
  stamp_bid now_ms (some bid) last = some now_ms

  abbrev pub stored : Option (Trail N) → Option (Trail N) → Option (Trail N)
  stored none memory = memory
  stored (some trail) memory = some trail

  -- The state after a tick, before its reason to close is acted on.
  unfoldable pub ticked :
      TrailPosition N → (option_bid : Option N) → Quoted N → Tick N → TrailState N → TrailState N
  ticked position option_bid quoted tick st = record st {
    trail = stored (trail_after (trail_of position.symbol st.trail) option_bid) st.trail;
    last_premium_quote_at = quoted.quote_at;
    last_premium_bid_at = stamp_bid tick.now_ms option_bid st.last_premium_bid_at;
  }

  abbrev pub quoted_for : TrailPosition N → Tick N → TrailState N → Quoted N
  quoted_for position tick st =
      bid_for
        (is_some position.stop_premium
          || is_some position.target_premium
          || is_some (trail_of position.symbol st.trail))
        tick st.last_premium_quote_at

  abbrev pub reason_for :
      TrailPosition N → (option_bid : Option N) → Tick N → TrailState N → Option SoftExitReason
  reason_for position option_bid tick st =
      decision_of (trail_after (trail_of position.symbol st.trail) option_bid) position tick.spot
        option_bid

  -- With a reason to close the stop is written to the row first.
  abbrev pub before_close : Option SoftExitReason → TrailState N → TrailResult N
  before_close none st = record { state = st; reason = none }
  before_close (some reason) st = record { state = flush_trail_state st; reason = some reason }

  unfoldable pub check_position : TrailPosition N → Tick N → TrailState N → TrailResult N
  unfolding ticked flush_trail_state
  check_position position tick st =
      let quoted = quoted_for position tick st in
      before_close (reason_for position quoted.option_bid tick st)
        (ticked position quoted.option_bid quoted tick st)

  abbrev pub check_for : Option (TrailPosition N) → Tick N → TrailState N → TrailResult N
  check_for none tick st = record { state = st; reason = none }
  check_for (some position) tick st =
      if st.has_lane then check_position position tick st else record { state = st; reason = none }

  unfoldable pub check_soft_stop_and_targets : Tick N → TrailState N → TrailResult N
  unfolding check_position
  check_soft_stop_and_targets tick st = check_for st.open_position tick st

  -- After a close the memory has no trail to write.
  abbrev pub flush_open : TrailResult N → TrailResult N
  flush_open r = elim r.reason [
    | none ↦ record { state = flush_trail_state r.state; reason = none }
    | some reason ↦ r
  ]

  abbrev pub check_spot : Option (Tick N) → TrailState N → TrailResult N
  check_spot none st = record { state = st; reason = none }
  check_spot (some tick) st = check_soft_stop_and_targets tick st

  abbrev pub watch_trail :
      (commission_round_trip : N)
      → ProfitLockLadder N
      → Option (TrailPosition N)
      → Option (Tick N)
      → TrailState N
      → TrailResult N
  watch_trail commission ladder none tick st = record {
    state = record st { trail = none };
    reason = none;
  }
  watch_trail commission ladder (some position) tick st =
      flush_open (check_spot tick (ensure_trail_state commission ladder position st))

  -- The part of a heartbeat that watches the position; without a spot there is no tick.
  unfoldable pub heartbeat_trail :
      (commission_round_trip : N)
      → ProfitLockLadder N
      → Option (Tick N)
      → TrailState N
      → TrailResult N
  unfolding check_soft_stop_and_targets flush_trail_state ensure_trail_state
  heartbeat_trail commission ladder tick st = watch_trail commission ladder st.open_position tick st

  -- What happens to a position between its fill and its close; the memory is lost in a restart.
  abbrev pub handle_trail :
      (commission_round_trip : N) → ProfitLockLadder N → TrailEvent N → TrailState N → TrailResult N
  handle_trail commission ladder (tick_event tick) st = check_soft_stop_and_targets tick st
  handle_trail commission ladder (heartbeat_event tick) st =
      heartbeat_trail commission ladder tick st
  handle_trail commission ladder restart_event st = record { state = restarted st; reason = none }

  abbrev pub then_trail : (TrailState N → TrailResult N) → TrailResult N → TrailResult N
  then_trail next r = elim r.reason [ none ↦ next r.state | some reason ↦ r ]

  -- The events up to the first reason to close.
  unfoldable pub run_trail :
      (commission_round_trip : N)
      → ProfitLockLadder N
      → List (TrailEvent N)
      → TrailState N
      → TrailResult N
  unfolding check_soft_stop_and_targets heartbeat_trail
  run_trail commission ladder [] st = record { state = st; reason = none }
  run_trail commission ladder (event ∷ events) st =
      then_trail (run_trail commission ladder events) (handle_trail commission ladder event st)
