-- ===== src/Bot/DayGates/Limits.antt =====
-- Which limit of the day is reached first, said of the settings and the day.
use nest_js_mega_backend.Prelude.{
  ◌≡◌, ◌↔◌, refl, Bool, true, false, ◌&&◌, Option, none, some, List, [], ◌∷◌, String, All, arith,
  both,
}
use nest_js_mega_backend.Prelude.Double.{Double, ◌≼◌, lit, lt}
use nest_js_mega_backend.Bot.DayGates.{
  GateSettings, DayReading, is_reached, first_reached, day_gate,
}

-- The limits of a day, in the order in which they are looked at.
pub data DayLimit : Type 0 where
  loss_usd loss_pct target_usd target_pct_day_start target_pct_current : DayLimit

abbrev pub reason_of : DayLimit → String
reason_of loss_usd = "MAX_LOSS_USD"
reason_of loss_pct = "MAX_LOSS_PCT"
reason_of target_usd = "PROFIT_TARGET_USD"
reason_of target_pct_day_start = "PROFIT_TARGET_PCT_DAY_START"
reason_of target_pct_current = "PROFIT_TARGET_PCT_CURRENT"

abbrev pub gate_reason : Option DayLimit → Option String
gate_reason none = none
gate_reason (some limit) = some (reason_of limit)

-- The limits that are looked at before this one.
abbrev pub earlier : DayLimit → List DayLimit
earlier loss_usd = []
earlier loss_pct = loss_usd ∷ []
earlier target_usd = loss_usd ∷ loss_pct ∷ []
earlier target_pct_day_start = loss_usd ∷ loss_pct ∷ target_usd ∷ []
earlier target_pct_current = loss_usd ∷ loss_pct ∷ target_usd ∷ target_pct_day_start ∷ []

abbrev pub all_limits : List DayLimit
all_limits = loss_usd ∷ loss_pct ∷ target_usd ∷ target_pct_day_start ∷ target_pct_current ∷ []

module _ {N : Type 0} ⦃d : Double N⦄ (s : GateSettings N) (r : DayReading N) where
  -- The limit is in use and set, and the profit and loss of the day has reached it: a loss is at or
  -- under the negative of its limit, a profit at or over its target. A percentage is one of an equity
  -- that is above zero.
  abbrev pub IsReached : DayLimit → Type 0
  IsReached loss_usd =
      (usd : N) × (s.use_max_loss_usd ≡ true)
      × (s.max_loss_usd ≡ some usd)
      × (r.today_bot_pnl ≼ d.sub (lit 0) usd)
  IsReached loss_pct =
      (pct : N) × (s.use_max_loss_pct ≡ true)
      × (s.max_loss_pct ≡ some pct)
      × (lt (lit 0) r.day_start_equity ≡ true)
      × (r.today_bot_pnl ≼ d.sub (lit 0) (d.mul r.day_start_equity (d.div pct (lit 100))))
  IsReached target_usd =
      (usd : N) × (s.use_profit_usd ≡ true) × (s.profit_usd ≡ some usd) × (usd ≼ r.today_bot_pnl)
  IsReached target_pct_day_start =
      (pct : N) × (s.use_profit_pct_day_start ≡ true)
      × (s.profit_pct_day_start ≡ some pct)
      × (lt (lit 0) r.day_start_equity ≡ true)
      × (d.mul r.day_start_equity (d.div pct (lit 100)) ≼ r.today_bot_pnl)
  IsReached target_pct_current =
      (pct : N) × (s.use_profit_pct_current ≡ true)
      × (s.profit_pct_current ≡ some pct)
      × (lt (lit 0) r.equity ≡ true)
      × (d.mul r.equity (d.div pct (lit 100)) ≼ r.today_bot_pnl)

  abbrev pub IsMissed : DayLimit → Type 0
  IsMissed limit = ¬ IsReached limit

  -- The first limit that is reached, and none of those before it; or no limit at all.
  abbrev pub IsFirst : Option DayLimit → Type 0
  IsFirst none = All IsMissed all_limits
  IsFirst (some limit) = IsReached limit × All IsMissed (earlier limit)

  -- A test of the code says whether the limit of the same place is reached.
  abbrev Tests : Bool → DayLimit → Type 0
  Tests b limit = (b ≡ true) ↔ IsReached limit

  missed : {b : Bool} (limit : DayLimit) → Tests b limit → b ≡ false → IsMissed limit
  missed limit t e h = let e' = t.1 h in cc

  reached_lem :
      (in_use : Bool) (limit : Option N) (test : N → Bool)
      → (is_reached in_use limit test ≡ true)
        ↔ ((n : N) × (in_use ≡ true) × (limit ≡ some n) × (test n ≡ true))
  reached_lem in_use none test = (λ h. cc, λ h. let (_, _, e, _) = h in cc)
  reached_lem in_use (some n) test = (
    λ h. let (u, t) = both in_use (test n) h in (n, u, refl, t),
    λ h. let (m, u, e, t) = h in ground arith,
  )

  reached_share_lem :
      (in_use positive : Bool) (limit : Option N) (test : N → Bool)
      → (is_reached in_use limit (λ n. positive && test n) ≡ true)
        ↔ ((n : N) × (in_use ≡ true) × (limit ≡ some n) × (positive ≡ true) × (test n ≡ true))
  reached_share_lem in_use positive none test = (λ h. cc, λ h. let (_, _, e, _, _) = h in cc)
  reached_share_lem in_use positive (some n) test = (
    λ h.
        let (u, t) = both in_use (positive && test n) h in
        let (p, t') = both positive (test n) t in (n, u, refl, p, t'),
    λ h. let (m, u, e, p, t) = h in ground arith,
  )

  first_reached_lem :
      (a b c e f : Bool)
      → Tests a loss_usd
      → Tests b loss_pct
      → Tests c target_usd
      → Tests e target_pct_day_start
      → Tests f target_pct_current
      → (first : Option DayLimit) × (first_reached a b c e f ≡ gate_reason first) × IsFirst first
  first_reached_lem true b c e f ta tb tc te tf = (some loss_usd, refl, (ta.0 refl, tt))
  first_reached_lem false true c e f ta tb tc te tf =
      (some loss_pct, refl, (tb.0 refl, (missed loss_usd ta refl, tt)))
  first_reached_lem false false true e f ta tb tc te tf =
      (some target_usd, refl, (tc.0 refl, (missed loss_usd ta refl, (missed loss_pct tb refl, tt))))
  first_reached_lem false false false true f ta tb tc te tf = (
    some target_pct_day_start,
    refl,
    (
      te.0 refl,
      (missed loss_usd ta refl, (missed loss_pct tb refl, (missed target_usd tc refl, tt))),
    ),
  )
  first_reached_lem false false false false true ta tb tc te tf = (
    some target_pct_current,
    refl,
    (
      tf.0 refl,
      (
        missed loss_usd ta refl,
        (
          missed loss_pct tb refl,
          (missed target_usd tc refl, (missed target_pct_day_start te refl, tt)),
        ),
      ),
    ),
  )
  first_reached_lem false false false false false ta tb tc te tf = (
    none,
    refl,
    (
      missed loss_usd ta refl,
      (
        missed loss_pct tb refl,
        (
          missed target_usd tc refl,
          (missed target_pct_day_start te refl, (missed target_pct_current tf refl, tt)),
        ),
      ),
    ),
  )

  pub day_gate_lem : (first : Option DayLimit) × (day_gate s r ≡ gate_reason first) × IsFirst first
  unfolding day_gate
  day_gate_lem =
      first_reached_lem _ _ _ _ _ (reached_lem s.use_max_loss_usd s.max_loss_usd _)
        (reached_share_lem s.use_max_loss_pct (lt (lit 0) r.day_start_equity) s.max_loss_pct _)
        (reached_lem s.use_profit_usd s.profit_usd _)
        (reached_share_lem s.use_profit_pct_day_start (lt (lit 0) r.day_start_equity)
          s.profit_pct_day_start _)
        (reached_share_lem s.use_profit_pct_current (lt (lit 0) r.equity) s.profit_pct_current _)
