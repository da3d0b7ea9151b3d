-- ===== src/Pnl/Fifo/Grouping.antt =====
-- Where the matches of `matchFills` come from: the grouping by key, the sort and the loop.
use mathlib.Core.Path.{subst}
use mathlib.Core.List.{append_assoc, append-nil}
use nest_js_mega_backend.Prelude.{
  ◌≤◌, ◌≡◌, refl, List, [], ◌∷◌, ◌++◌, String, All, All-append, inl, inr, Bool, true, Bool-cases,
  ◌===◌, text_iff, sym, both, All-map, ◌&&◌,
}
use nest_js_mega_backend.Pnl.Fifo.{
  FifoFillInput, OrderSource, RealizedTradeMatch, Group, source_eq, source_of, add_fill,
  group_fills, sort_fills, match_groups, match_fills, contract_multiplier,
}
use nest_js_mega_backend.Pnl.Fifo.Pairs.{
  HasBoth, HasBoth-InTurn, HasBoth-Within, HasBoth-sort_fills, Within, Within-nil, Within-later,
  Within-joined, sort_fills-All, sort_fills-IsByTime,
}
use nest_js_mega_backend.Pnl.Fifo.Turns.{
  Opens, Closes, KeyOf, MatchOf, match_sorted-MatchOf, InTurn-time,
}

-- Two fills at different places of the list are the ends of the match, and it opens no later than it
-- closes.
abbrev pub IsTraced : List FifoFillInput → RealizedTradeMatch → Type 0
IsTraced fills m = HasBoth (Opens m) (Closes m) fills × (m.opened_at ≤ m.closed_at)

-- The fills of a group have its key, and are among those that were added.
abbrev GroupOf : List FifoFillInput → Group → Type 0
GroupOf added g = All (KeyOf g.symbol g.source) g.fills × Within g.fills added

source_of_eq : (a b : OrderSource) → source_eq a b ≡ true → a ≡ b
unfolding source_eq
source_of_eq OrderSource.manual_live OrderSource.manual_live h = refl
source_of_eq OrderSource.manual_paper OrderSource.manual_paper h = refl
source_of_eq OrderSource.bot_live OrderSource.bot_live h = refl
source_of_eq OrderSource.bot_paper OrderSource.bot_paper h = refl
source_of_eq _ _ h = cc

GroupOf-later :
    (added : List FifoFillInput) (fill : FifoFillInput) (groups : List Group)
    → All (GroupOf added) groups
    → All (GroupOf (added ++ (fill ∷ []))) groups
GroupOf-later added fill groups h = All-map groups (λ g (k, w). (k, Within-later fill w)) h

Within-last :
    (added : List FifoFillInput) (fill : FifoFillInput) → Within (fill ∷ []) (added ++ (fill ∷ []))
Within-last added fill = Within-joined fill (Within-nil added)

-- A fill joins the group of its own key.
add_fill-GroupOf :
    (added : List FifoFillInput) (fill : FifoFillInput) (groups : List Group)
    → All (GroupOf added) groups
    → All (GroupOf (added ++ (fill ∷ []))) (add_fill fill groups)
unfolding add_fill
add_fill-GroupOf added fill [] h = ((((refl, refl), tt), Within-last added fill), tt)
add_fill-GroupOf added fill (g ∷ gs) h =
    let rest = add_fill-GroupOf added fill gs h.1 in
    let (keys, within) = h.0 in
    elim (Bool-cases (g.symbol === fill.symbol && source_eq g.source (source_of fill))) [
      | inl same ↦
          let (e, e') = both (g.symbol === fill.symbol) _ same in
          let key : KeyOf g.symbol g.source fill = (
            sym ((text_iff g.symbol fill.symbol).0 e),
            sym (source_of_eq g.source (source_of fill) e'),
          ) in
          rw same (
            (
              All-append (KeyOf g.symbol g.source) g.fills (fill ∷ []) keys (key, tt),
              Within-joined fill within,
            ),
            GroupOf-later added fill gs h.1,
          )
      | inr other ↦ rw other ((keys, Within-later fill within), rest)
    ]

group_fills-GroupOf :
    (added rest : List FifoFillInput) (groups : List Group)
    → All (GroupOf added) groups
    → All (GroupOf (added ++ rest)) (group_fills rest groups)
unfolding group_fills
group_fills-GroupOf added [] groups h = rw append-nil h
group_fills-GroupOf added (fill ∷ rest) groups h =
    subst
      (λ (all : List FifoFillInput). All (GroupOf all) (group_fills rest (add_fill fill groups)))
      (append_assoc added (fill ∷ []) rest)
      (group_fills-GroupOf (added ++ (fill ∷ [])) rest (add_fill fill groups)
        (add_fill-GroupOf added fill groups h))

module _ (id_le : String → String → Bool) where
  MatchOf-IsTraced :
      (fills : List FifoFillInput) (g : Group) (m : RealizedTradeMatch)
      → Within g.fills fills
      → MatchOf g.symbol g.source [] (sort_fills id_le g.fills) m
      → IsTraced fills m
  MatchOf-IsTraced fills g m within (inl (o, c)) = absurd o
  MatchOf-IsTraced fills g m within (inr turn) = (
    HasBoth-Within (Opens m) (Closes m) within (
        HasBoth-sort_fills id_le (Opens m) (Closes m) g.fills
          (HasBoth-InTurn (Opens m) (Closes m) (sort_fills id_le g.fills) turn)),
    InTurn-time m (sort_fills id_le g.fills) (sort_fills-IsByTime id_le g.fills) turn,
  )

  match_groups-IsTraced :
      (fills : List FifoFillInput) (groups : List Group)
      → All (GroupOf fills) groups
      → All (IsTraced fills) (match_groups id_le groups)
  unfolding match_groups
  match_groups-IsTraced fills [] h = tt
  match_groups-IsTraced fills (g ∷ gs) h =
      All-append (IsTraced fills) _ _
        (All-map _ (λ m. MatchOf-IsTraced fills g m h.0.1)
          (match_sorted-MatchOf g.symbol g.source [] (contract_multiplier g.symbol)
            (sort_fills id_le g.fills) []
            (sort_fills-All id_le (KeyOf g.symbol g.source) g.fills h.0.0) tt))
        (match_groups-IsTraced fills gs h.1)

  -- Every match closes a fill against another one, at a different place of the list: both have the
  -- match's symbol and source, so fills of different books never meet, the match carries the id, the
  -- price and the time of each, and it opens no later than it closes.
  pub match_fills-IsTraced :
      (fills : List FifoFillInput) → All (IsTraced fills) (match_fills id_le fills)
  unfolding match_fills
  match_fills-IsTraced fills =
      match_groups-IsTraced fills (group_fills fills []) (group_fills-GroupOf [] fills [] tt)
