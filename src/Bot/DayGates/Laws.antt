-- ===== src/Bot/DayGates/Laws.antt =====
-- What a limit of the day does to a bot on the live lane.
use mathlib.Core.Path.{subst}
use nest_js_mega_backend.Prelude.{
  ◌≡◌, refl, sym, Bool, true, false, Option, none, some, String, if◌then◌else◌,
}
use nest_js_mega_backend.Prelude.Double.{Double}
use nest_js_mega_backend.Bot.Lockout.{BotLane, KillScope, is_live, is_operator_unlockable}
use nest_js_mega_backend.Bot.State.{
  Env, Control, Result, Done, pure, flatten_and_halt, unlock, ok, thrown, conflict,
}
use nest_js_mega_backend.Bot.State.Halts.{flatten_and_halt_lem, unlock_lem}
use nest_js_mega_backend.Bot.DayGates.{
  GateSettings, DayReading, day_gate, halt_for, check_loss_and_profit_gates,
}
use nest_js_mega_backend.Bot.DayGates.Limits.{
  DayLimit, loss_usd, loss_pct, target_usd, target_pct_day_start, target_pct_current, reason_of,
  gate_reason, IsFirst, day_gate_lem,
}

final_reason :
    (limit : DayLimit)
    → is_operator_unlockable (some BotLane.bot_live) (some (reason_of limit)) ≡ false
unfolding is_operator_unlockable
final_reason loss_usd = refl
final_reason loss_pct = refl
final_reason target_usd = refl
final_reason target_pct_day_start = refl
final_reason target_pct_current = refl

-- The call went through: the bot is locked out under the reason and does not run, and an unlock
-- throws and changes nothing.
abbrev pub IsHalted : Env → String → Result Done × Control → Type 0
IsHalted env reason (result, c') =
    (result ≡ ok tt)
    × (c'.row.lockout ≡ true)
    × (c'.row.lockout_reason ≡ some reason)
    × (c'.row.running ≡ false)
    × ((unlock env c').0 ≡ thrown conflict)
    × ((unlock env c').1 ≡ c')

else_of : (P : Type 0) {Q : Type 0} (b : Bool) → b ≡ false → (if b then P else Q) → Q
else_of P true e h = cc
else_of P false e h = h

halt_for-IsHalted :
    (env : Env) (limit : DayLimit) (c : Control)
    → c.row.lane ≡ some BotLane.bot_live
    → IsHalted env (reason_of limit) (halt_for env (some (reason_of limit)) c)
halt_for-IsHalted env limit c live =
    let reason = reason_of limit in
    let (done, locked, under, _, stopped, lane, _, _) =
      flatten_and_halt_lem env reason KillScope.all c in
    let c' = (flatten_and_halt env reason KillScope.all c).1 in
    let final = final_reason limit in
    let refused : is_operator_unlockable c'.row.lane c'.row.lockout_reason ≡ false = cc in
    let (thrown_at, kept) =
      else_of _ (is_operator_unlockable c'.row.lane c'.row.lockout_reason) refused
        (unlock_lem env c' locked) in
    (done, locked, under, stopped, thrown_at, kept)

-- Without a limit nothing happens.
abbrev pub IsGated : Env → Control → Option DayLimit → Result Done × Control → Type 0
IsGated env c none after = after ≡ (ok tt, c)
IsGated env c (some limit) after = IsHalted env (reason_of limit) after

halt_for-IsGated :
    (env : Env) (first : Option DayLimit) (c : Control)
    → c.row.lane ≡ some BotLane.bot_live
    → IsGated env c first (halt_for env (gate_reason first) c)
halt_for-IsGated env none c live = refl
halt_for-IsGated env (some limit) c live = halt_for-IsHalted env limit c live

module _ {N : Type 0} ⦃d : Double N⦄ (s : GateSettings N) (r : DayReading N) where
  -- On the live lane the gates of the day find the first limit that is reached, or that none is.
  -- Without one nothing happens. Else the bot is locked out under the reason of this limit, it does
  -- not run, and the operator cannot unlock it: the call throws and changes nothing.
  pub check_loss_and_profit_gates-IsHalted :
      (env : Env) (c : Control)
      → c.row.lane ≡ some BotLane.bot_live
      → (first : Option DayLimit) × IsFirst s r first
        × IsGated env c first (check_loss_and_profit_gates env s r c)
  unfolding check_loss_and_profit_gates
  check_loss_and_profit_gates-IsHalted env c live =
      let (first, e, is_first) = day_gate_lem s r in
      (
        first,
        is_first,
        subst
            (λ (lane : Option BotLane).
              IsGated env c first
                (if is_live lane then halt_for env (day_gate s r) c else pure tt c))
            (sym live)
            (subst (λ (reason : Option String). IsGated env c first (halt_for env reason c)) (sym e)
              (halt_for-IsGated env first c live)),
      )
