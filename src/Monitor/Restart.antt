-- ===== src/Monitor/Restart.antt =====
-- engine/monitor.py: fills that were on record at the start are never handled again.
use polymarket_rewards.Base.{
  ◌≡◌, refl, sym, ap, ◌∙◌, subst, ◌⊎◌, inl, inr, Bool, true, false, ◌||◌, ℕ, Option, none, some,
  List, [], ◌∷◌, ◌++◌, map, keep, if◌then◌else◌, if_intro, Bool-cases, All,
}
use polymarket_rewards.Base.Text.{Text}
use polymarket_rewards.Fills.{Trade, BuyEvent, Key, contains, select_new_buy_fills}
use polymarket_rewards.Fills.Once.{key_of, contains-append, select_new_buy_fills_order}
use polymarket_rewards.Monitor.{
  FillSources, FillState, remember_fill, remember_all, prime_with, latest, or_pending,
  init_watermark, ids_or_none, handle_trades, after_of, step_primed, check_buy_orders,
}
use polymarket_rewards.Monitor.Handled.{market_of, has_size, handle_trades-Handles}
use mathlib.Core.List.{append-nil, append_assoc}
use polymarket_rewards.Monitor.OwnOrders.{IsOrderOf, handle_all-Cancels}

-- No market was put to cool down, and no cancellation was sent.
abbrev pub IsQuiet : FillState → FillState → Type 0
IsQuiet s after = (after.cooldowns ≡ s.cooldowns) × (after.cancels ≡ s.cancels)

-- The keys of all our purchases among the trades.
abbrev pub record_keys : List Trade → Option Text → List Key
record_keys trades funder = map key_of (select_new_buy_fills trades funder [])

-- The tick did nothing, or it has handled the purchases of an answer of the exchange that are new to it:
-- none of them has an old key, the markets of those with a size were put to cool down, and what was
-- cancelled are orders of these purchases.
abbrev pub ActsOnNew : Option Text → List Key → FillSources → FillState → FillState → Type 0
ActsOnNew funder old x s after =
    IsQuiet s after
    ⊎ ((since : Option ℕ) × (trades : List Trade) × (seen : List Key) × (x.get_trades since
          ≡ some trades)
        × let fills = select_new_buy_fills trades funder seen in
          All (λ (ev : BuyEvent). contains (key_of ev) old ≡ false) fills
          × (after.cooldowns ≡ s.cooldowns ++ map market_of (keep has_size fills))
          × ((ids : List Text) × (after.cancels ≡ s.cancels ++ ids) × All (IsOrderOf fills) ids))

-- So does each of the ticks that follow one another.
abbrev pub EachTick : Option Text → List Key → List FillSources → FillState → Type 0
EachTick funder old [] s = Unit
EachTick funder old (x ∷ ticks) s =
    let after = check_buy_orders x funder s in
    ActsOnNew funder old x s after × EachTick funder old ticks after

-- Asked for all trades, the exchange fails, or returns at least our purchases that were on record.
abbrev pub HasRecord : List Key → Option Text → FillSources → Type 0
HasRecord old funder x =
    (x.all_trades ≡ none)
    ⊎ ((trades : List Trade) × (x.all_trades ≡ some trades)
        × ((k : Key) → contains k old ≡ true → contains k (record_keys trades funder) ≡ true))

-- The keys that are remembered, and that nothing else is done.
remember_all-Keys :
    (fills : List BuyEvent) (s : FillState)
    → ((remember_all fills s).seen_keys ≡ s.seen_keys ++ map key_of fills)
      × IsQuiet s (remember_all fills s)
unfolding remember_all
remember_all-Keys [] s = (sym (append-nil s.seen_keys), (refl, refl))
remember_all-Keys (ev ∷ fills) s =
    let (keys, quiet) = remember_all-Keys fills (remember_fill ev s) in
    (keys ∙ append_assoc s.seen_keys (key_of ev ∷ []) (map key_of fills), quiet)

module _ (funder : Option Text) (old : List Key) where
  -- The old keys are remembered.
  abbrev IsPrimed : FillState → Type 0
  IsPrimed s = (k : Key) → contains k old ≡ true → contains k s.seen_keys ≡ true

  -- No fill is handled before they are.
  abbrev IsGuarded : FillState → Type 0
  IsGuarded s = (s.prime_pending ≡ true) ⊎ IsPrimed s

  or_left : (a b : Bool) → a ≡ true → (a || b) ≡ true
  or_left true b h = refl
  or_left false b h = absurd (cc)

  or_right : (a b : Bool) → b ≡ true → (a || b) ≡ true
  or_right true b h = refl
  or_right false b h = h

  not_old :
      (s : FillState)
      → IsPrimed s
      → (k : Key) → contains k s.seen_keys ≡ false
      → contains k old ≡ false
  not_old s primed k unseen = elim (Bool-cases (contains k old)) [
    | inl known ↦ absurd (let wrong : true ≡ false = sym (primed k known) ∙ unseen in cc)
    | inr unknown ↦ unknown
  ]

  All-not_old :
      (s : FillState) (fills : List BuyEvent)
      → IsPrimed s
      → All (λ (ev : BuyEvent). contains (key_of ev) s.seen_keys ≡ false) fills
      → All (λ (ev : BuyEvent). contains (key_of ev) old ≡ false) fills
  All-not_old s [] primed h = tt
  All-not_old s (ev ∷ fills) primed (unseen, h) =
      (not_old s primed (key_of ev) unseen, All-not_old s fills primed h)

  more_seen :
      (s after : FillState) (keys : List Key)
      → after.seen_keys ≡ s.seen_keys ++ keys
      → IsPrimed s
      → IsPrimed after
  more_seen s after keys more primed k known =
      ap (contains k) more
      ∙ contains-append k s.seen_keys keys
      ∙ or_left (contains k s.seen_keys) (contains k keys) (primed k known)

  -- What a step of a tick may do, from a state that has done nothing since the tick began.
  abbrev Fine : FillSources → FillState → FillState → Type 0
  Fine x s after = ActsOnNew funder old x s after × IsGuarded after

  handle_trades-Fine :
      (x : FillSources) (since : Option ℕ) (answer : Option (List Trade)) (s begun : FillState)
      → x.get_trades since ≡ answer
      → IsQuiet s begun
      → IsPrimed begun
      → Fine x s (handle_trades x funder answer begun)
  handle_trades-Fine x since none s begun e quiet primed = (inl quiet, inr primed)
  handle_trades-Fine x since (some trades) s begun e quiet primed =
      let fills = select_new_buy_fills trades funder begun.seen_keys in
      let after = handle_trades x funder (some trades) begun in
      let (keys, cooled, _, _) = handle_trades-Handles x funder trades begun in
      let (ids, sent, own) = handle_all-Cancels x (ids_or_none x.open_ids) fills [] begun in
      let unseen = (select_new_buy_fills_order trades funder begun.seen_keys).1 in
      (
        inr (
          since,
          trades,
          begun.seen_keys,
          e,
          (
            All-not_old begun fills primed unseen,
            cooled ∙ ap (λ l. l ++ map market_of (keep has_size fills)) quiet.0,
            (ids, sent ∙ ap (λ l. l ++ ids) quiet.1, own),
          ),
        ),
        inr (more_seen begun after (map key_of fills) keys primed),
      )

  -- The attempt to read the record.
  prime-Guarded :
      (x : FillSources) (s : FillState)
      → HasRecord old funder x
      → let (worked, after) = prime_with funder x.all_trades s in
        ((worked ≡ false) × (after ≡ s)) ⊎ ((worked ≡ true) × IsQuiet s after × IsPrimed after)
  prime-Guarded x s (inl failed) = rw failed (inl (refl, refl))
  prime-Guarded x s (inr (trades, read, wide)) =
      let fills = select_new_buy_fills trades funder [] in
      let (keys, quiet) = remember_all-Keys fills s in
      rw read (
        inr (
          refl,
          quiet,
          λ k known.
              ap (contains k) keys
              ∙ contains-append k s.seen_keys (map key_of fills)
              ∙ or_right (contains k s.seen_keys) (contains k (map key_of fills)) (wide k known),
        ))

  -- Whether the tick may handle fills, and the state in which it does.
  abbrev Begun : FillState → Bool × FillState → Type 0
  Begun s (worked, begun) =
      ((worked ≡ false) × (begun ≡ s) × (s.prime_pending ≡ true))
      ⊎ ((worked ≡ true) × IsQuiet s begun × IsPrimed begun)

  step-Fine :
      (x : FillSources) (s : FillState) (tried : Bool × FillState)
      → Begun s tried
      → Fine x s (step_primed x funder tried)
  step-Fine x s (false, begun) (inl (failed, same, waits)) =
      subst (Fine x s) (sym same) (inl (refl, refl), inl waits)
  step-Fine x s (true, begun) (inl (failed, same, waits)) = absurd (cc)
  step-Fine x s (false, begun) (inr (worked, quiet, primed)) = absurd (cc)
  step-Fine x s (true, begun) (inr (worked, quiet, primed)) =
      handle_trades-Fine x (after_of begun.after_ts) (x.get_trades (after_of begun.after_ts)) s
        begun refl quiet primed

  ready-IsPrimed : (s : FillState) → IsGuarded s → s.prime_pending ≡ false → IsPrimed s
  ready-IsPrimed s (inl waits) ready = absurd (let wrong : true ≡ false = sym waits ∙ ready in cc)
  ready-IsPrimed s (inr primed) ready = primed

  waiting-Begun :
      (x : FillSources) (s : FillState)
      → HasRecord old funder x
      → s.prime_pending ≡ true
      → Begun s (prime_with funder x.all_trades s)
  waiting-Begun x s found waits = elim (prime-Guarded x s found) [
    | inl (failed, same) ↦ inl (failed, same, waits)
    | inr done ↦ inr done
  ]

  tick-Fine :
      (x : FillSources) (s : FillState)
      → HasRecord old funder x
      → IsGuarded s
      → Fine x s (check_buy_orders x funder s)
  unfolding check_buy_orders
  tick-Fine x s found guarded =
      step-Fine x s (if s.prime_pending then prime_with funder x.all_trades s else (true, s)) (
        if_intro (Begun s) s.prime_pending (prime_with funder x.all_trades s) (true, s)
          (waiting-Begun x s found)
          (λ ready. inr (refl, (refl, refl), ready-IsPrimed s guarded ready)))

  ticks-EachTick :
      (ticks : List FillSources) (s : FillState)
      → All (HasRecord old funder) ticks
      → IsGuarded s
      → EachTick funder old ticks s
  ticks-EachTick [] s found guarded = tt
  ticks-EachTick (x ∷ ticks) s (here, found) guarded =
      let (acts, still) = tick-Fine x s here guarded in
      (acts, ticks-EachTick ticks (check_buy_orders x funder s) found still)

  start-Guarded :
      (start : FillSources) (s : FillState)
      → HasRecord old funder start
      → let after = or_pending (prime_with funder start.all_trades s) in
        IsQuiet s after × IsGuarded after
  start-Guarded start s found = elim (prime-Guarded start s found) [
    | inl (failed, same) ↦ rw (failed, same) ((refl, refl), inl refl)
    | inr (worked, quiet, primed) ↦ rw worked (quiet, inr primed)
  ]

-- Wherever the exchange, asked for all trades, fails or returns at least what was on record: the start puts
-- no market to cool down and cancels nothing, and no tick after it, whatever trades it is answered, handles
-- a fill that was on record. What each tick does is done for fills of its answer with other keys: their
-- markets cool down, and only their orders are cancelled.
pub restart-EachTick :
    (trades : List Trade) (funder : Option Text) (start : FillSources) (ticks : List FillSources)
    (times : List ℕ) (s : FillState)
    → All (HasRecord (record_keys trades funder) funder) (start ∷ ticks)
    → let started = init_watermark start funder times s in
      IsQuiet s started × EachTick funder (record_keys trades funder) ticks started
unfolding init_watermark
restart-EachTick trades funder start ticks times s (here, found) =
    let old = record_keys trades funder in
    let (quiet, guarded) =
      start-Guarded funder old start (record s { after_ts = latest times }) here in
    (quiet, ticks-EachTick funder old ticks _ found guarded)
