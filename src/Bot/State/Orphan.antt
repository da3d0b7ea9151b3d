-- ===== src/Bot/State/Orphan.antt =====
-- What `disableLive` does to a position whose exit the broker does not fill.
use nest_js_mega_backend.Prelude.{◌≡◌, Bool, true, Option, none, some, String, arith}
use nest_js_mega_backend.Prelude.Int.{ℤ}
use nest_js_mega_backend.Bot.Lockout.{BotMode, KillScope, is_live}
use nest_js_mega_backend.Bot.State.{
  Env, BotOpenPosition, Control, clear_lockout_if_new_day, release_feed_for_trainer, set_mode,
  enable_live, reset_paper, reset_with, disable_live, unlock, flatten_and_halt, close_open_position,
  unfilled,
}
use nest_js_mega_backend.Bot.State.Switches.{
  Step, rolls_over, yields_feed, sets_mode, sets_lane, enables_live, disables_live, resets_paper,
  halts, unlocks, Reach, here, next,
}

abbrev IsOtherCall : {c d : Control} → Step c d → Type 0
IsOtherCall (sets_lane env lane confirm) = ⊥
IsOtherCall _ = Unit

-- No call of the run is `setLane`.
abbrev pub TakesNoLane : {c d : Control} → Reach c d → Type 0
TakesNoLane here = Unit
TakesNoLane (next r s) = TakesNoLane r × IsOtherCall s

-- The position is open, and the bot is on no lane.
abbrev pub IsOrphaned : BotOpenPosition → Control → Type 0
IsOrphaned position c = (c.row.lane ≡ none) × (c.row.open_position ≡ some position)

module _ (position : BotOpenPosition) where
  halt-IsOrphaned :
      (env : Env) (reason : String) (scope : KillScope) (c : Control)
      → IsOrphaned position c
      → IsOrphaned position (flatten_and_halt env reason scope c).1
  unfolding flatten_and_halt close_open_position
  halt-IsOrphaned env reason scope c h = ground arith

  disable-IsOrphaned :
      (env : Env) (c : Control) → IsOrphaned position c → IsOrphaned position (disable_live env c).1
  unfolding disable_live
  disable-IsOrphaned env c h = ground arith

  reset-IsOrphaned :
      (env : Env) (equity : Option ℤ) (c : Control)
      → IsOrphaned position c
      → IsOrphaned position (reset_paper env equity c).1
  unfolding reset_paper reset_with
  reset-IsOrphaned env none c h = h
  reset-IsOrphaned env (some equity) c h = ground arith

  roll-IsOrphaned :
      (env : Env) (c : Control)
      → IsOrphaned position c
      → IsOrphaned position (clear_lockout_if_new_day env c).1
  unfolding clear_lockout_if_new_day
  roll-IsOrphaned env c h = ground arith

  yield-IsOrphaned :
      (env : Env) (c : Control)
      → IsOrphaned position c
      → IsOrphaned position (release_feed_for_trainer env c).1
  unfolding release_feed_for_trainer
  yield-IsOrphaned env c h = ground arith

  mode-IsOrphaned :
      (env : Env) (mode : BotMode) (c : Control)
      → IsOrphaned position c
      → IsOrphaned position (set_mode env mode c).1
  unfolding set_mode
  mode-IsOrphaned env mode c h = let rolled = roll-IsOrphaned env c h in ground arith

  enable-IsOrphaned :
      (env : Env) (confirm : Bool) (c : Control)
      → IsOrphaned position c
      → IsOrphaned position (enable_live env confirm c).1
  unfolding enable_live
  enable-IsOrphaned env confirm c h = ground arith

  unlock-IsOrphaned :
      (env : Env) (c : Control) → IsOrphaned position c → IsOrphaned position (unlock env c).1
  unfolding unlock
  unlock-IsOrphaned env c h = ground arith

  Step-IsOrphaned :
      {c d : Control} (s : Step c d) → IsOtherCall s → IsOrphaned position c → IsOrphaned position d
  Step-IsOrphaned (rolls_over {c} env) o h = roll-IsOrphaned env c h
  Step-IsOrphaned (yields_feed {c} env) o h = yield-IsOrphaned env c h
  Step-IsOrphaned (sets_mode {c} env mode) o h = mode-IsOrphaned env mode c h
  Step-IsOrphaned (sets_lane env lane confirm) o h = absurd o
  Step-IsOrphaned (enables_live {c} env confirm) o h = enable-IsOrphaned env confirm c h
  Step-IsOrphaned (disables_live {c} env) o h = disable-IsOrphaned env c h
  Step-IsOrphaned (resets_paper {c} env equity) o h = reset-IsOrphaned env equity c h
  Step-IsOrphaned (halts {c} env reason scope) o h = halt-IsOrphaned env reason scope c h
  Step-IsOrphaned (unlocks {c} env) o h = unlock-IsOrphaned env c h

  Reach-IsOrphaned :
      {c d : Control} (r : Reach c d)
      → TakesNoLane r
      → IsOrphaned position c
      → IsOrphaned position d
  Reach-IsOrphaned here o h = h
  Reach-IsOrphaned (next r s) o h = Step-IsOrphaned s o.1 (Reach-IsOrphaned r o.0 h)

disable_live_unfilled :
    (env : Env) (c : Control) (position : BotOpenPosition)
    → is_live c.row.lane ≡ true
    → c.row.open_position ≡ some position
    → env.exit_result ≡ unfilled
    → IsOrphaned position (disable_live env c).1
unfolding disable_live flatten_and_halt close_open_position
disable_live_unfilled env c position live held missed = ground arith

-- If the broker does not fill the exit, disarming live leaves the position open without a lane. It
-- stays so through every run of the control plane in which `setLane` is not called: no halt in it
-- closes the position, whatever the broker answers.
pub disable_live_orphan :
    (env : Env) (c d : Control) {position : BotOpenPosition}
    → is_live c.row.lane ≡ true
    → c.row.open_position ≡ some position
    → env.exit_result ≡ unfilled
    → (r : Reach (disable_live env c).1 d) → TakesNoLane r
    → IsOrphaned position (disable_live env c).1 × IsOrphaned position d
disable_live_orphan env c d {position} live held missed r o =
    let left = disable_live_unfilled env c position live held missed in
    (left, Reach-IsOrphaned position r o left)
