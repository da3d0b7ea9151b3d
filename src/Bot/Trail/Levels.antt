-- ===== src/Bot/Trail/Levels.antt =====
-- The stop and the peak that are in force, in memory or in the row.
use nest_js_mega_backend.Prelude.{
  ◌≡◌, sym, false, Option, none, some, List, [], ◌∷◌, String, or_else, ◌===◌, text_iff, Bool-cases,
  inl, inr, arith,
}
use nest_js_mega_backend.Prelude.Double.{Double, IsUnder}
use nest_js_mega_backend.Bot.Trail.{
  Trail, TrailPosition, TrailState, TrailEvent, tick_event, heartbeat_event, restart_event,
  trail_of, stop_in_force,
}

module _ {N : Type 0} where
  abbrev pub HasNoRestart : List (TrailEvent N) → Type 0
  HasNoRestart [] = Unit
  HasNoRestart (restart_event ∷ events) = ⊥
  HasNoRestart (tick_event tick ∷ events) = HasNoRestart events
  HasNoRestart (heartbeat_event tick ∷ events) = HasNoRestart events

module _ {N : Type 0} ⦃d : Double N⦄ where
  -- The highest bid that is known: that of the trail, or else of the row.
  abbrev pub peak_in_force : Option (Trail N) → TrailPosition N → Option N
  peak_in_force none position = position.peak_bid
  peak_in_force (some trail) position = some trail.peak_bid

  abbrev pub in_force :
      (Option (Trail N) → TrailPosition N → Option N)
      → Option (TrailPosition N)
      → Option (Trail N)
      → Option N
  in_force level none memory = none
  in_force level (some p) memory = level (trail_of p.symbol memory) p

  -- The stop that the next tick starts from, and the peak.
  abbrev pub current_stop : TrailState N → Option N
  current_stop st = in_force stop_in_force st.open_position st.trail

  abbrev pub current_peak : TrailState N → Option N
  current_peak st = in_force peak_in_force st.open_position st.trail

  pub IsUnder-or_else :
      (a b : Option N) (other : N) → IsUnder a b → IsUnder a (some (or_else b other))
  IsUnder-or_else none b other h = tt
  IsUnder-or_else (some a) none other h = elim h [ ]
  IsUnder-or_else (some a) (some b) other h = h

module _ {N : Type 0} where
  pub symbol_of_trail :
      (symbol : String) (memory : Option (Trail N)) (t : Trail N)
      → trail_of symbol memory ≡ some t
      → t.symbol ≡ symbol
  symbol_of_trail symbol none t e = cc
  symbol_of_trail symbol (some m) t e = ground (arith, text_iff m.symbol symbol)

  pub kept_symbol :
      (t : Trail N) (symbol : String) → t.symbol ≡ symbol → trail_of symbol (some t) ≡ some t
  kept_symbol t symbol same = rw ((text_iff t.symbol symbol).1 same)

  pub other_symbol :
      (t : Trail N) (symbol : String)
      → (symbol === t.symbol) ≡ false
      → trail_of symbol (some t) ≡ none
  other_symbol t symbol other = elim (Bool-cases (t.symbol === symbol)) [
    | inl same ↦
        let e = (text_iff symbol t.symbol).1 (sym ((text_iff t.symbol symbol).0 same)) in cc
    | inr no_match ↦ rw no_match
  ]
