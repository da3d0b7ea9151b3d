-- ===== src/Bot/Lockout.antt =====
-- src/subapps/schwab/bot/bot-lockout.const.ts, bot-phase.util.ts, bot-equity-thresholds.const.ts and
-- the enumerations of bot/enums: lanes, modes, lockouts and the phase that the desk shows.
use nest_js_mega_backend.Prelude.{
  ℕ, ◌*◌, ◌≡◌, ◌≢◌, Bool, true, false, not, ◌&&◌, ◌||◌, Option, none, some, List, [], ◌∷◌, String,
  has, is_some, ◌↔◌, if◌then◌else◌, arith,
}
use nest_js_mega_backend.Prelude.Int.{ℤ, pos}

pub data BotLane : Type 0 where
  bot_paper bot_live : BotLane

pub data BotMode : Type 0 where
  manual bot : BotMode

pub data KillScope : Type 0 where
  all paper live : KillScope

-- Money is a number of ten thousandths of a dollar, as the columns of `bot_state` keep it.
abbrev pub dollars : ℕ → ℤ
dollars n = pos (n * 10_000)

abbrev pub min_equity_live : ℤ
min_equity_live = dollars 5000

abbrev pub min_equity_paper : ℤ
min_equity_paper = dollars 0

abbrev pub default_paper_equity : ℤ
default_paper_equity = dollars 10_000

abbrev pub operator_unlockable_reasons : List String
operator_unlockable_reasons =
    "KILL_SWITCH" ∷ "LIVE_DISABLED" ∷ "HARD_FLATTEN_EOD" ∷ "SOCKET_LOSS" ∷ []

abbrev pub paper_training_lockout_reasons : List String
paper_training_lockout_reasons =
    "MAX_LOSS_USD" ∷ "MAX_LOSS_PCT" ∷ "PROFIT_TARGET_USD" ∷ "PROFIT_TARGET_PCT_DAY_START"
    ∷ "PROFIT_TARGET_PCT_CURRENT" ∷ []

abbrev pub is_live : Option BotLane → Bool
is_live (some BotLane.bot_live) = true
is_live (some BotLane.bot_paper) = false
is_live none = false

abbrev pub is_paper : Option BotLane → Bool
is_paper (some BotLane.bot_paper) = true
is_paper (some BotLane.bot_live) = false
is_paper none = false

abbrev pub is_bot : BotMode → Bool
is_bot BotMode.bot = true
is_bot BotMode.manual = false

unfoldable pub is_paper_training_lockout : Option String → Bool
is_paper_training_lockout none = false
is_paper_training_lockout (some reason) = has paper_training_lockout_reasons reason

-- `!reason` holds of a missing reason, and of the empty text.
unfoldable pub is_operator_unlockable : Option BotLane → Option String → Bool
unfolding is_paper_training_lockout
is_operator_unlockable lane none = true
is_operator_unlockable lane (some reason) =
    has ("" ∷ []) reason
    || has operator_unlockable_reasons reason
    || (not (is_live lane) && is_paper_training_lockout (some reason))

pub data BotPhase : Type 0 where
  stopped lockout waiting_window scanning entering in_position exiting cooldown : BotPhase

pub data TransientPhase : Type 0 where
  entering exiting : TransientPhase

pub record ComputePhaseParams : Type 0 where
  pub mode : BotMode
  pub lane : Option BotLane
  pub lockout : Bool
  pub has_open_position : Bool
  pub transient_phase : Option TransientPhase
  pub within_trade_window : Bool
  pub in_cooldown : Bool

-- The phase of a bot that is neither halted nor stopped.
running_phase : Option TransientPhase → ComputePhaseParams → BotPhase
running_phase (some TransientPhase.entering) params = BotPhase.entering
running_phase (some TransientPhase.exiting) params = BotPhase.exiting
running_phase none params =
    if params.has_open_position
    then BotPhase.in_position
    else if not params.within_trade_window
    then BotPhase.waiting_window
    else if params.in_cooldown
    then BotPhase.cooldown
    else BotPhase.scanning

unfoldable pub compute_phase : ComputePhaseParams → BotPhase
unfolding running_phase
compute_phase params =
    if params.lockout
    then BotPhase.lockout
    else if not (is_bot params.mode) || not (is_some params.lane)
    then BotPhase.stopped
    else running_phase params.transient_phase params

-- The desk shows `SCANNING`, the only phase in which the bot looks for an entry, exactly when the bot
-- is on a lane, is not locked out, is flat with no order in flight, and the window is open without a
-- cooldown.
pub compute_phase_scanning :
    (params : ComputePhaseParams)
    → (compute_phase params ≡ BotPhase.scanning) ↔ (
        (params.lockout ≡ false)
        × (params.mode ≡ BotMode.bot)
        × (params.lane ≢ none)
        × (params.transient_phase ≡ none)
        × (params.has_open_position ≡ false)
        × (params.within_trade_window ≡ true)
        × (params.in_cooldown ≡ false))
unfolding compute_phase
compute_phase_scanning params = ground arith
