-- ===== src/Bot/Exit/SoftExit.antt =====
-- When the soft exit leaves a trade, and why.
use mathlib.Core.Path.{subst}
use nest_js_mega_backend.Prelude.{
  ◌≡◌, ap, ◌∙◌, ◌≢◌, ◌↔◌, refl, Bool, true, false, Option, none, some, arith, if◌then◌else◌,
}
use nest_js_mega_backend.Prelude.Double.{Double, IsOrdered, IsUnder, ◌≼◌}
use nest_js_mega_backend.Bot.Exit.Ratchet.{ratchet_premium_stop-IsUnder_peak, ratchet_peak}
use nest_js_mega_backend.Bot.Exit.{
  BotDirection, SoftExitCheckInput, SoftExitReason, StopPremiumSource, premium_reason, decide_for,
  decide_soft_exit, at_or_below, at_or_above, underlying_stopped, underlying_reached,
  RatchetStopInput, ratchet_premium_stop, cent_under, peak_of,
}

-- Four tests in a row come to nothing exactly when each of them fails.
split_tests :
    (a b c r : Bool) (w x y z : SoftExitReason) {A B C R : Type 0}
    → (a ≡ true) ↔ A
    → (b ≡ true) ↔ B
    → (c ≡ true) ↔ C
    → (r ≡ true) ↔ R
    → ((if a
          then some w
          else if b
          then some x
          else if c
          then some y
          else if r
          then some z
          else none)
        ≡ none)
      ↔ (¬ A × ¬ B × ¬ C × ¬ R)
split_tests true b c r w x y z ha hb hc hr = (λ e. cc, λ h. absurd (h.0 (ha.0 refl)))
split_tests false true c r w x y z ha hb hc hr = (λ e. cc, λ h. absurd (h.1 (hb.0 refl)))
split_tests false false true r w x y z ha hb hc hr = (λ e. cc, λ h. absurd (h.2 (hc.0 refl)))
split_tests false false false true w x y z ha hb hc hr = (λ e. cc, λ h. absurd (h.3 (hr.0 refl)))
split_tests false false false false w x y z ha hb hc hr =
    (λ e. (λ t. cc (ha.1 t), λ t. cc (hb.1 t), λ t. cc (hc.1 t), λ t. cc (hr.1 t)), λ h. refl)

-- What holds of each reason under its test holds of the reason of the first test that succeeds.
first_test :
    (P : SoftExitReason → Type 0) (a b c r : Bool) (w x y z reason : SoftExitReason)
    → (a ≡ true → P w)
    → (b ≡ true → P x)
    → (c ≡ true → P y)
    → (r ≡ true → P z)
    → (if a then some w else if b then some x else if c then some y else if r then some z else none)
      ≡ some reason
    → P reason
first_test P true b c r w x y z reason ha hb hc hr e = subst P (cc) (ha refl)
first_test P false true c r w x y z reason ha hb hc hr e = subst P (cc) (hb refl)
first_test P false false true r w x y z reason ha hb hc hr e = subst P (cc) (hc refl)
first_test P false false false true w x y z reason ha hb hc hr e = subst P (cc) (hr refl)
first_test P false false false false w x y z reason ha hb hc hr e = absurd (cc)

module _ {N : Type 0} ⦃d : Double N⦄ where
  -- Both prices are known, and the first is at or below the second.
  abbrev pub AtOrBelow : Option N → Option N → Type 0
  AtOrBelow (some a) (some b) = a ≼ b
  AtOrBelow none b = ⊥
  AtOrBelow (some a) none = ⊥

  -- The underlying has gone against the trade, or with it, as far as the level.
  abbrev pub IsAgainst : BotDirection → Option N → Option N → Type 0
  IsAgainst BotDirection.call spot level = AtOrBelow spot level
  IsAgainst BotDirection.put spot level = AtOrBelow level spot

  abbrev pub IsWith : BotDirection → Option N → Option N → Type 0
  IsWith BotDirection.call spot level = AtOrBelow level spot
  IsWith BotDirection.put spot level = AtOrBelow spot level

  below_lem : (a b : Option N) → (at_or_below a b ≡ true) ↔ AtOrBelow a b
  below_lem none none = (λ e. cc, λ h. absurd h)
  below_lem none (some b) = (λ e. cc, λ h. absurd h)
  below_lem (some a) none = (λ e. cc, λ h. absurd h)
  below_lem (some a) (some b) = (λ e. e, λ h. h)

  above_lem : (a b : Option N) → (at_or_above a b ≡ true) ↔ AtOrBelow b a
  above_lem none none = (λ e. cc, λ h. absurd h)
  above_lem none (some b) = (λ e. cc, λ h. absurd h)
  above_lem (some a) none = (λ e. cc, λ h. absurd h)
  above_lem (some a) (some b) = (λ e. e, λ h. h)

  stopped_lem :
      (direction : BotDirection) (spot : N) (level : Option N)
      → (underlying_stopped direction spot level ≡ true) ↔ IsAgainst direction (some spot) level
  unfolding underlying_stopped
  stopped_lem BotDirection.call spot level = below_lem (some spot) level
  stopped_lem BotDirection.put spot level = above_lem (some spot) level

  reached_lem :
      (direction : BotDirection) (spot : N) (level : Option N)
      → (underlying_reached direction spot level ≡ true) ↔ IsWith direction (some spot) level
  unfolding underlying_reached
  reached_lem BotDirection.call spot level = above_lem (some spot) level
  reached_lem BotDirection.put spot level = below_lem (some spot) level

  -- A call or a put is held exactly when the bid is above its stop and under its target, and the
  -- underlying has reached neither of its levels; a level or a bid that is missing counts as not
  -- reached.
  pub decide_soft_exit_hold :
      (direction : BotDirection) (input : SoftExitCheckInput N)
      → input.direction ≡ some direction
      → (decide_soft_exit input ≡ none) ↔ (
          ¬ AtOrBelow input.option_bid input.stop_premium
          × ¬ IsAgainst direction (some input.spot) input.stop_underlying
          × ¬ AtOrBelow input.target_premium input.option_bid
          × ¬ IsWith direction (some input.spot) input.target_underlying)
  unfolding decide_soft_exit decide_for
  decide_soft_exit_hold direction input e =
      let a = below_lem input.option_bid input.stop_premium in
      let b = stopped_lem direction input.spot input.stop_underlying in
      let c = above_lem input.option_bid input.target_premium in
      let r = reached_lem direction input.spot input.target_underlying in
      rw (e, decide_soft_exit) (split_tests _ _ _ _ _ _ _ _ a b c r)

  -- What a reason says of the tick.
  abbrev pub IsCause : BotDirection → SoftExitCheckInput N → SoftExitReason → Type 0
  IsCause direction input SoftExitReason.trail_stop =
      AtOrBelow input.option_bid input.stop_premium
      × (input.stop_premium_source ≡ some StopPremiumSource.trail)
  IsCause direction input SoftExitReason.premium_stop =
      AtOrBelow input.option_bid input.stop_premium
      × (input.stop_premium_source ≢ some StopPremiumSource.trail)
  IsCause direction input SoftExitReason.underlying_stop =
      IsAgainst direction (some input.spot) input.stop_underlying
  IsCause direction input SoftExitReason.premium_target =
      AtOrBelow input.target_premium input.option_bid
  IsCause direction input SoftExitReason.underlying_target =
      IsWith direction (some input.spot) input.target_underlying

  stop-IsCause :
      (direction : BotDirection) (input : SoftExitCheckInput N) (source : Option StopPremiumSource)
      → input.stop_premium_source ≡ source
      → AtOrBelow input.option_bid input.stop_premium
      → IsCause direction input (premium_reason source)
  unfolding premium_reason
  stop-IsCause direction input none e h = (h, λ k. cc)
  stop-IsCause direction input (some StopPremiumSource.initial) e h = (h, λ k. cc)
  stop-IsCause direction input (some StopPremiumSource.trail) e h = (h, e)

  pub decide_soft_exit-IsCause :
      (direction : BotDirection) (input : SoftExitCheckInput N) (reason : SoftExitReason)
      → input.direction ≡ some direction
      → decide_soft_exit input ≡ some reason
      → IsCause direction input reason
  unfolding decide_soft_exit decide_for
  decide_soft_exit-IsCause direction input reason e h =
      first_test (IsCause direction input) _ _ _ _ _ _ _ _ reason
        (λ t.
          stop-IsCause direction input input.stop_premium_source refl
            ((below_lem input.option_bid input.stop_premium).0 t))
        (stopped_lem direction input.spot input.stop_underlying).0
        (above_lem input.option_bid input.target_premium).0
        (reached_lem direction input.spot input.target_underlying).0 (rw (e, decide_soft_exit) at h)

  -- A bid at or under the stop closes a call or a put whatever the other levels say, and the reason
  -- names whose stop it was; no other input gives that reason.
  pub decide_soft_exit_premium :
      (direction : BotDirection) (input : SoftExitCheckInput N)
      → input.direction ≡ some direction
      → (AtOrBelow input.option_bid input.stop_premium
          → decide_soft_exit input ≡ some (premium_reason input.stop_premium_source))
        × (¬ AtOrBelow input.option_bid input.stop_premium
            → (decide_soft_exit input ≢ some SoftExitReason.trail_stop)
              × (decide_soft_exit input ≢ some SoftExitReason.premium_stop))
  unfolding decide_soft_exit decide_for
  decide_soft_exit_premium direction input e =
      let (to, from) = below_lem input.option_bid input.stop_premium in
      (λ h. rw (e, decide_soft_exit, from h), λ h. (ground (arith, to), ground (arith, to)))

  -- What is neither a call nor a put is never closed here.
  pub decide_soft_exit_nowhere :
      (input : SoftExitCheckInput N) → input.direction ≡ none → decide_soft_exit input ≡ none
  unfolding decide_soft_exit
  decide_soft_exit_nowhere input e = rw (e, decide_soft_exit)

  -- A bid over a level is over every stop under that level.
  pub above_stop :
      (laws : IsOrdered N) (bid level : N) (stop : Option N)
      → IsUnder stop (some level)
      → d.le bid level ≡ false
      → ¬ AtOrBelow (some bid) stop
  above_stop laws bid level none under over h = h
  above_stop laws bid level (some stop) under over h = cc (laws.le_trans bid stop level h under)

  -- The tick that sets a new high cannot stop itself out: if a cent less than the peak is less than
  -- the peak, and the old stop is a cent or more under it, the ratcheted stop is not hit at the peak.
  pub ratchet_no_self_stop :
      (laws : IsOrdered N) (tick : RatchetStopInput N) (direction : BotDirection) (spot : N)
      (target stop_u target_u : Option N)
      → tick.option_bid ≡ peak_of tick
      → d.le (peak_of tick) (cent_under (peak_of tick)) ≡ false
      → IsUnder tick.stop_premium (some (cent_under (peak_of tick)))
      → let r = ratchet_premium_stop tick in
        let decision = decide_soft_exit (record {
          direction = some direction;
          spot = spot;
          option_bid = some tick.option_bid;
          stop_premium = r.stop_premium;
          target_premium = target;
          stop_underlying = stop_u;
          target_underlying = target_u;
          stop_premium_source = some r.source;
        }) in
        (decision ≢ some SoftExitReason.trail_stop) × (decision ≢ some SoftExitReason.premium_stop)
  ratchet_no_self_stop laws tick direction spot target stop_u target_u high cent under =
      let kept = ratchet_premium_stop-IsUnder_peak laws tick under in
      (decide_soft_exit_premium direction _ refl).1 (
        above_stop laws tick.option_bid (cent_under (peak_of tick))
          (ratchet_premium_stop tick).stop_premium (rw (← ratchet_peak laws tick) kept)
          (ap (λ b. d.le b (cent_under (peak_of tick))) high ∙ cent))
