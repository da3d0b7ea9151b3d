-- ===== src/Bot/State/Halts.antt =====
-- Halting the bot and letting it go on: `flattenAndHalt`, `kill`, `unlock`, `disableLive`.
use nest_js_mega_backend.Prelude.{
  ◌≡◌, refl, true, false, ◌&&◌, Option, some, String, arith, is_some, if◌then◌else◌, Bool-cases,
  inl, inr,
}
use nest_js_mega_backend.Bot.Lockout.{BotLane, KillScope, is_live, is_bot, is_operator_unlockable}
use nest_js_mega_backend.Bot.State.{
  Env, Control, resumed, unlocked, disable_live, kill, unlock, flatten_and_halt, ok, thrown,
  conflict, ◌>>◌,
}
use nest_js_mega_backend.Bot.State.Invariant.{close_keeps}

-- Whatever the broker answers and whatever the scope, a halt goes through: the bot is locked out for
-- the day under the reason, it does not run, and its lane, its mode and the arming stay.
pub flatten_and_halt_lem :
    (env : Env) (reason : String) (scope : KillScope) (c : Control)
    → let (result, c') = flatten_and_halt env reason scope c in
      (result ≡ ok tt)
      × (c'.row.lockout ≡ true)
      × (c'.row.lockout_reason ≡ some reason)
      × (c'.row.lockout_date_key ≡ some env.today)
      × (c'.row.running ≡ false)
      × (c'.row.lane ≡ c.row.lane)
      × (c'.row.mode ≡ c.row.mode)
      × (c'.row.live_armed ≡ c.row.live_armed)
unfolding flatten_and_halt
flatten_and_halt_lem env reason scope c = ground (arith, close_keeps env reason c)

-- A lockout is lifted exactly when its reason may be lifted on this lane: then the bot runs again if
-- it is in BOT mode on a lane; else the call throws and changes nothing.
pub unlock_lem :
    (env : Env) (c : Control)
    → c.row.lockout ≡ true
    → let (result, c') = unlock env c in
      if is_operator_unlockable c.row.lane c.row.lockout_reason
      then (result ≡ ok tt) × (c'.row ≡ resumed (unlocked c.row))
      else (result ≡ thrown conflict) × (c' ≡ c)
unfolding unlock
unlock_lem env c locked =
    elim (Bool-cases (is_operator_unlockable c.row.lane c.row.lockout_reason)) [
      | inl may ↦ rw may (ground arith)
      | inr must_not ↦ rw must_not (ground arith)
    ]

kill_unlockable : (lane : Option BotLane) → is_operator_unlockable lane (some "KILL_SWITCH") ≡ true
unfolding is_operator_unlockable
kill_unlockable lane = refl

-- A kill followed by an unlock lifts every lockout on the same day, one for a loss or a profit on the
-- live lane among them, since the kill writes its own reason over that of the lockout.
pub kill_then_unlock :
    (env : Env) (scope : KillScope) (c : Control)
    → let (result, c') = (kill env scope >> unlock env) c in
      (result ≡ ok tt)
      × (c'.row.lockout ≡ false)
      × (c'.row.running ≡ (is_bot c.row.mode && is_some c.row.lane))
unfolding kill unlock
kill_then_unlock env scope c =
    let halted = flatten_and_halt_lem env "KILL_SWITCH" scope c in
    ground (arith, kill_unlockable c.row.lane)

-- Disarming always goes through and ends with no live lane and live not armed.
pub disable_live_lem :
    (env : Env) (c : Control)
    → let (result, c') = disable_live env c in
      (result ≡ ok tt) × (c'.row.live_armed ≡ false) × (is_live c'.row.lane ≡ false)
unfolding disable_live
disable_live_lem env c = ground (arith, flatten_and_halt_lem env "LIVE_DISABLED" KillScope.live c)
