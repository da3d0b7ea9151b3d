-- ===== src/Bot/State/Invariant.antt =====
-- The invariant of the control plane and its calls.
use nest_js_mega_backend.Prelude.{
  ◌≡◌, Bool, true, not, ◌&&◌, ◌||◌, Option, none, some, String, arith, is_some,
}
use nest_js_mega_backend.Prelude.Int.{ℤ}
use nest_js_mega_backend.Bot.Lockout.{BotLane, BotMode, KillScope, is_live, is_bot}
use nest_js_mega_backend.Bot.State.{
  BotState, Env, Control, initial_row, clear_lockout_if_new_day, release_feed_for_trainer, set_mode,
  set_lane, enable_live, reset_paper, reset_with, disable_live, unlock, flatten_and_halt,
  close_open_position, lane_allowed, take_lane, mode_running, ok,
}

-- The bot runs only in BOT mode, on a lane and without a lockout; the live lane is held only while
-- live is armed; and a lockout has a reason and a day, as nothing else has.
pub record IsSound (row : BotState) : Type 0 where
  pub running_ok :
      (not row.running || (is_bot row.mode && is_some row.lane && not row.lockout)) ≡ true
  pub live_ok : (not (is_live row.lane) || row.live_armed) ≡ true
  pub reason_ok : is_some row.lockout_reason ≡ row.lockout
  pub day_ok : is_some row.lockout_date_key ≡ row.lockout

pub initial_row-IsSound : IsSound initial_row
initial_row-IsSound = ground arith

pub clear_lockout-IsSound :
    (env : Env) (c : Control) → IsSound c.row → IsSound (clear_lockout_if_new_day env c).1.row
unfolding clear_lockout_if_new_day
clear_lockout-IsSound env c v = ground arith

pub release_feed-IsSound :
    (env : Env) (c : Control) → IsSound c.row → IsSound (release_feed_for_trainer env c).1.row
unfolding release_feed_for_trainer
release_feed-IsSound env c v = ground arith

pub enable_live-IsSound :
    (env : Env) (confirm : Bool) (c : Control)
    → IsSound c.row
    → IsSound (enable_live env confirm c).1.row
unfolding enable_live
enable_live-IsSound env confirm c v = ground arith

pub unlock-IsSound : (env : Env) (c : Control) → IsSound c.row → IsSound (unlock env c).1.row
unfolding unlock
unlock-IsSound env c v = ground arith

set_mode_after :
    (env : Env) (mode : BotMode) (row : BotState)
    → IsSound row
    → IsSound (record row { mode = mode; running = mode_running env mode row })
unfolding mode_running
set_mode_after env BotMode.manual row v = ground arith
set_mode_after env BotMode.bot row v = ground arith

pub set_mode-IsSound :
    (env : Env) (mode : BotMode) (c : Control) → IsSound c.row → IsSound (set_mode env mode c).1.row
unfolding set_mode
set_mode-IsSound env mode c v =
    let cleared = clear_lockout-IsSound env c v in
    ground (arith, set_mode_after env mode (clear_lockout_if_new_day env c).1.row cleared)

-- The check of a lane leaves the state alone, and lets the live lane through only when it is armed.
pub lane_allowed_lem :
    (env : Env) (lane : BotLane) (c : Control)
    → ((lane_allowed env lane c).1 ≡ c)
      × ((lane_allowed env lane c).0 ≡ ok tt
          → (not (is_live (some lane)) || c.row.live_armed) ≡ true)
unfolding lane_allowed
lane_allowed_lem env BotLane.bot_live c = ground arith
lane_allowed_lem env BotLane.bot_paper c = ground arith

take_lane-IsSound :
    (env : Env) (lane : BotLane) (c : Control)
    → IsSound c.row
    → (not (is_live (some lane)) || c.row.live_armed) ≡ true
    → IsSound (take_lane env lane c).1.row
unfolding take_lane
take_lane-IsSound env BotLane.bot_live c v armed = ground arith
take_lane-IsSound env BotLane.bot_paper c v armed = ground arith

pub set_lane-IsSound :
    (env : Env) (lane : BotLane) (confirm : Bool) (c : Control)
    → IsSound c.row
    → IsSound (set_lane env lane confirm c).1.row
unfolding set_lane
set_lane-IsSound env lane confirm c v =
    let c' = (clear_lockout_if_new_day env c).1 in
    let cleared = clear_lockout-IsSound env c v in
    ground (arith, lane_allowed_lem env lane c', take_lane-IsSound env lane c' cleared)

reset_with-IsSound :
    (env : Env) (equity : ℤ) (c : Control) → IsSound c.row → IsSound (reset_with env equity c).1.row
unfolding reset_with
reset_with-IsSound env equity c v = ground arith

pub reset_paper-IsSound :
    (env : Env) (equity : Option ℤ) (c : Control)
    → IsSound c.row
    → IsSound (reset_paper env equity c).1.row
unfolding reset_paper
reset_paper-IsSound env none c v = v
reset_paper-IsSound env (some equity) c v =
    let after = reset_with-IsSound env equity c v in ground arith

close-IsSound :
    (env : Env) (reason : String) (c : Control)
    → IsSound c.row
    → IsSound (close_open_position env reason c).1.row
unfolding close_open_position
close-IsSound env reason c v = ground arith

-- An exit changes neither the lane nor the arming, and it never throws.
pub close_keeps :
    (env : Env) (reason : String) (c : Control)
    → ((close_open_position env reason c).0 ≡ ok tt)
      × ((close_open_position env reason c).1.row.lane ≡ c.row.lane)
      × ((close_open_position env reason c).1.row.mode ≡ c.row.mode)
      × ((close_open_position env reason c).1.row.live_armed ≡ c.row.live_armed)
unfolding close_open_position
close_keeps env reason c = ground arith

pub flatten_and_halt-IsSound :
    (env : Env) (reason : String) (scope : KillScope) (c : Control)
    → IsSound c.row
    → IsSound (flatten_and_halt env reason scope c).1.row
unfolding flatten_and_halt
flatten_and_halt-IsSound env reason scope c v =
    let closed = close-IsSound env reason c v in let kept = close_keeps env reason c in ground arith

pub disable_live-IsSound :
    (env : Env) (c : Control) → IsSound c.row → IsSound (disable_live env c).1.row
unfolding disable_live
disable_live-IsSound env c v =
    let halted = flatten_and_halt-IsSound env "LIVE_DISABLED" KillScope.live c v in ground arith
