-- ===== src/Monitor/OwnOrders.antt =====
-- engine/monitor.py: only orders of the fills that are handled are cancelled.
use polymarket_rewards.Base.{
  ◌≡◌, refl, sym, ap, ◌∙◌, ◌⊎◌, inl, inr, ◌==◌, suc, Option, none, some, List, [], ◌∷◌, ◌++◌,
  if_intro, All, Within,
}
use polymarket_rewards.Base.Text.{Text}
use polymarket_rewards.Fills.{BuyEvent}
use polymarket_rewards.Monitor.{
  FillSources, FillState, remember_fill, is_rest_open, cancel_rest, handle_fill, handle_all,
}
use mathlib.Core.List.{append-nil, append_assoc}

-- The order is that of one of the fills.
abbrev pub IsOrderOf : List BuyEvent → Text → Type 0
IsOrderOf fills id = (ev : BuyEvent) × Within ev fills × (ev.order_id ≡ some id)

-- What the handling of one fill cancels.
abbrev MayCancel : BuyEvent → FillState → FillState → Type 0
MayCancel ev s after =
    (after.cancels ≡ s.cancels)
    ⊎ ((id : Text) × (ev.order_id ≡ some id) × (after.cancels ≡ s.cancels ++ id ∷ []))

cancel_rest-MayCancel :
    (x : FillSources) (ev : BuyEvent) (id : Option Text) (cancelled : List (Option Text))
    (s cooled : FillState)
    → ev.order_id ≡ id
    → cooled.cancels ≡ s.cancels
    → MayCancel ev s (cancel_rest x id cancelled cooled).1
cancel_rest-MayCancel x ev none cancelled s cooled e same = inl same
cancel_rest-MayCancel x ev (some id) cancelled s cooled e same =
    inr (id, e, ap (λ l. l ++ id ∷ []) same)

handle_fill-MayCancel :
    (x : FillSources) (ev : BuyEvent) (cancelled open_ids : List (Option Text)) (s : FillState)
    → MayCancel ev s (handle_fill x ev cancelled open_ids s).1
unfolding handle_fill
handle_fill-MayCancel x ev cancelled open_ids s =
    let cooled : FillState = record s { cooldowns = s.cooldowns ++ ev.market ∷ [] } in
    let Fine : List (Option Text) × FillState → Type 0 = λ q. MayCancel ev s q.1 in
    if_intro Fine (ev.size == 0) _ _ (λ e. inl refl)
      (λ e.
        if_intro Fine (is_rest_open ev.order_id open_ids cancelled)
          (cancel_rest x ev.order_id cancelled cooled) (cancelled, cooled)
          (λ f. cancel_rest-MayCancel x ev ev.order_id cancelled s cooled refl refl)
          (λ f. inl refl))

IsOrderOf-cons :
    (ev : BuyEvent) (fills : List BuyEvent) (ids : List Text)
    → All (IsOrderOf fills) ids
    → All (IsOrderOf (ev ∷ fills)) ids
IsOrderOf-cons ev fills [] h = tt
IsOrderOf-cons ev fills (id ∷ ids) ((other, (k, at), own), h) =
    ((other, (suc k, at), own), IsOrderOf-cons ev fills ids h)

abbrev Cancels : List BuyEvent → FillState → FillState → Type 0
Cancels fills s after =
    (ids : List Text) × (after.cancels ≡ s.cancels ++ ids) × All (IsOrderOf fills) ids

Cancels-then :
    (ev : BuyEvent) (fills : List BuyEvent) (s next last : FillState)
    → MayCancel ev s next
    → Cancels fills next last
    → Cancels (ev ∷ fills) s last
Cancels-then ev fills s next last (inl same) (ids, sent, own) =
    (ids, sent ∙ ap (λ l. l ++ ids) same, IsOrderOf-cons ev fills ids own)
Cancels-then ev fills s next last (inr (id, mine, one)) (ids, sent, own) = (
  id ∷ ids,
  sent ∙ ap (λ l. l ++ ids) one ∙ append_assoc s.cancels (id ∷ []) ids,
  ((ev, (0, refl), mine), IsOrderOf-cons ev fills ids own),
)

pub handle_all-Cancels :
    (x : FillSources) (open_ids : List (Option Text)) (fills : List BuyEvent)
    (cancelled : List (Option Text)) (s : FillState)
    → Cancels fills s (handle_all x open_ids fills cancelled s)
unfolding handle_all
handle_all-Cancels x open_ids [] cancelled s = ([], sym (append-nil s.cancels), tt)
handle_all-Cancels x open_ids (ev ∷ fills) cancelled s =
    let handled = handle_fill x ev cancelled open_ids s in
    let after = handle_all x open_ids fills handled.0 (remember_fill ev handled.1) in
    Cancels-then ev fills s handled.1 after (handle_fill-MayCancel x ev cancelled open_ids s)
      (handle_all-Cancels x open_ids fills handled.0 (remember_fill ev handled.1))
