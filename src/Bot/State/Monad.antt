-- ===== src/Bot/State/Monad.antt =====
-- The state of the control plane, and its calls: state that is kept after an exception too, since
-- what was saved stays saved.
use nest_js_mega_backend.Prelude.{ℕ, Bool, Option, List, ◌∷◌, String, if◌then◌else◌}
use nest_js_mega_backend.Prelude.Int.{ℤ}
use nest_js_mega_backend.Bot.Lockout.{BotLane, BotMode}

-- Of the open position, the fields that the control plane reads.
pub record BotOpenPosition : Type 0 where
  pub symbol : String
  pub quantity : ℕ
  pub source : BotLane

pub record BotState : Type 0 where
  pub mode : BotMode
  pub lane : Option BotLane
  pub running : Bool
  pub lockout : Bool
  pub lockout_reason : Option String
  pub lockout_date_key : Option String
  pub live_armed : Bool
  pub paper_equity : ℤ
  pub paper_settled_cash : ℤ
  pub paper_day_start_equity : ℤ
  pub open_position : Option BotOpenPosition

pub data ExitResult : Type 0 where
  failed unfilled : ExitResult
  filled : (fill_price : ℕ) → ExitResult

pub record Env : Type 0 where
  pub today : String
  pub trainer_holds_feed : Bool
  pub live_equity : ℤ
  pub exit_result : ExitResult
  pub commission_per_contract : ℕ

pub data BotEventType : Type 0 where
  exit_submit exit_fill flat_kill lockout_event unlock_event operator_settings operator_mode
        operator_lane operator_live :
      BotEventType

-- The `reason` of an event.
pub data EventReason : Type 0 where
  new_trading_day operator_unlock paper_reset live_armed_event live_disarmed exit_unfilled :
      EventReason
  mode_change : (from to : BotMode) → EventReason
  lane_change : (from : Option BotLane) (to : BotLane) → EventReason
  halted : String → EventReason

pub record BotEvent : Type 0 where
  pub lane : Option BotLane
  pub kind : BotEventType
  pub reason : EventReason

pub record CapitalEvent : Type 0 where
  pub lane : Option BotLane
  pub balance_before : ℤ
  pub balance_after : ℤ

-- The newest entry of a log stands first.
pub record Control : Type 0 where
  pub row : BotState
  pub events : List BotEvent
  pub capital : List CapitalEvent

pub data Exception : Type 0 where
  bad_request conflict : Exception

pub data Result (A : Type 0) : Type 0 where
  ok : A → Result A
  thrown : Exception → Result A

abbrev pub Done : Type 0
Done = Unit

abbrev pub Action : Type 0 → Type 0
Action A = Control → Result A × Control

module _ {A : Type 0} where
  abbrev pub pure : A → Action A
  pure a c = (ok a, c)

  abbrev pub throw : Exception → Action A
  throw e c = (thrown e, c)

infixl 5 ◌>>=◌ ◌>>◌
abbrev pub ◌>>=◌ : {A B : Type 0} → Action A → (A → Action B) → Action B
◌>>=◌ m f c = let (r, c') = m c in elim r [ ok a ↦ f a c' | thrown e ↦ throw e c' ]

abbrev pub ◌>>◌ : {A B : Type 0} → Action A → Action B → Action B
m >> k = m >>= λ _. k

abbrev pub get_row : Action BotState
get_row c = (ok c.row, c)

abbrev pub save : BotState → Action Done
save row c = (ok tt, record c { row = row })

abbrev pub throw_if : Bool → Exception → Action Done
throw_if test e c = (if test then thrown e else ok tt, c)

abbrev pub record_event : Option BotLane → BotEventType → EventReason → Action Done
record_event lane kind reason c =
    (ok tt, record c { events = record { lane = lane; kind = kind; reason = reason } ∷ c.events })

abbrev pub record_capital : Option BotLane → (before after : ℤ) → Action Done
record_capital lane before after c = (
  ok tt,
  record c {
    capital = record { lane = lane; balance_before = before; balance_after = after } ∷ c.capital;
  },
)
