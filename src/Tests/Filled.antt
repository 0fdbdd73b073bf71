-- ===== src/Tests/Filled.antt =====
-- Examples for the handling of fills in engine/monitor.py.
use polymarket_rewards.Base.{refl, inl, inr, true, false, none, some, List, [], ◌∷◌, keep}
use polymarket_rewards.Base.Text.{codes}
use polymarket_rewards.Fills.{select_new_buy_fills}
use polymarket_rewards.Monitor.{FillSources, FillState, init_watermark, handle_trades}
use polymarket_rewards.Monitor.Restart.{IsQuiet, record_keys, EachTick, restart-EachTick}
use polymarket_rewards.Monitor.Handled.{Handles, handle_trades-Handles}
use polymarket_rewards.Tests.Fills.{funder, trades}

abbrev offline : FillSources
offline = record {
  all_trades = none;
  get_trades = λ after. none;
  open_ids = none;
  cancel_order = λ id. false;
}

abbrev online : FillSources
online = record {
  all_trades = some trades;
  get_trades = λ after. some (keep (λ tr. true) trades);
  open_ids = some (some (codes "o1") ∷ []);
  cancel_order = λ id. true;
}

abbrev fresh : FillState
fresh = record { seen_keys = []; after_ts = 0; prime_pending = false; cooldowns = []; cancels = [] }

-- The start cannot read the record, and the first tick then does.
abbrev two_ticks : List FillSources
two_ticks = online ∷ online ∷ []

restart-EachTick_example :
    IsQuiet fresh (init_watermark offline (some funder) (5 ∷ []) fresh)
    × EachTick
        (some funder)
        (record_keys trades (some funder))
        two_ticks
        (init_watermark offline (some funder) (5 ∷ []) fresh)
restart-EachTick_example =
    restart-EachTick trades (some funder) offline two_ticks (5 ∷ []) fresh
      (inl refl, (inr (trades, refl, λ k c. c), (inr (trades, refl, λ k c. c), tt)))

abbrev handled : FillState
handled = handle_trades online (some funder) (some trades) fresh

handle_trades-Handles_example :
    Handles (some (codes "o1") ∷ []) (select_new_buy_fills trades (some funder) []) fresh handled
handle_trades-Handles_example = handle_trades-Handles online (some funder) trades fresh
