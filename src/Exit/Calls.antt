-- ===== src/Exit/Calls.antt =====
-- engine/exit_router.py: what the parts of a route send to the exchange and to the relayer.
use polymarket_rewards.Base.{
  ℕ, ◌≤◌, ◌≡◌, refl, ap, ◌∙◌, Bool, true, false, tests, inl, inr, ◌||◌, not, Option, none, some,
  List, [], ◌∷◌, ◌++◌, ltb, Bool-cases, All, All-append, is_empty,
}
use polymarket_rewards.Base.Text.{Text, codes, text_eq, lower}
use polymarket_rewards.Cost.{Lot}
use polymarket_rewards.Ledger.{pair_amount}
use polymarket_rewards.Merges.{
  Event, Table, failed, status_eq, fok_merge, create_merge_event, get_merge_event, Answers,
  FokAnswer, rejected, network_error, answered, Call, cancel_call, fok_call, merge_call,
  RouterState, calling, sell_ids, cancel_sells, fail_row, fail_event, after_submit, submit_merge,
  fifo_cost, after_pair, pair_merge_route, note_fok, after_fok, send_fok, start_fok_merge,
}
use mathlib.Core.List.{append-nil, append_assoc}

-- What has been sent since is all of one kind.
abbrev pub Added : (Call → Type 0) → RouterState → RouterState → Type 0
Added P s t = (new : List Call) × (t.calls ≡ s.calls ++ new) × All P new

module _ (P : Call → Type 0) where
  pub Added-none : (s t : RouterState) → t.calls ≡ s.calls → Added P s t
  Added-none s t same = ([], rw append-nil same, tt)

  pub Added-trans : (s t u : RouterState) → Added P s t → Added P t u → Added P s u
  Added-trans s t u (xs, ex, hx) (ys, ey, hy) =
      (xs ++ ys, ey ∙ ap (λ cs. cs ++ ys) ex ∙ append_assoc s.calls xs ys, All-append P xs ys hx hy)

  pub Added-call : (c : Call) (s : RouterState) → P c → Added P s (calling c s)
  Added-call c s h = (c ∷ [], refl, (h, tt))

  pub cancel_sells-Added :
      ((ids : List Text) → P (cancel_call ids))
      → (asset : Text) (s : RouterState) → Added P s (cancel_sells asset s)
  unfolding cancel_sells
  cancel_sells-Added h asset s = elim (Bool-cases (is_empty (sell_ids asset s.open_orders))) [
    | inl idle ↦ rw idle (Added-none s s refl)
    | inr busy ↦ rw busy (cancel_call (sell_ids asset s.open_orders) ∷ [], refl, (h _, tt))
  ]

fail_row-calls :
    (env : Answers) (id : ℕ) (row : Option Event) (s : RouterState)
    → (fail_row env id row s).calls ≡ s.calls
unfolding fail_row
fail_row-calls env id none s = refl
fail_row-calls env id (some cur) s = elim (Bool-cases (status_eq cur.status failed)) [
  | inl done ↦ rw done refl
  | inr open_row ↦ rw open_row refl
]

fail_event-calls :
    (env : Answers) (id : ℕ) (s : RouterState) → (fail_event env id s).calls ≡ s.calls
unfolding fail_event
fail_event-calls env id s = fail_row-calls env id (get_merge_event id s.table.rows) s

after_submit-calls :
    (env : Answers) (id : ℕ) (answer : Option Text) (s : RouterState)
    → (after_submit env id answer s).calls ≡ s.calls
unfolding after_submit
after_submit-calls env id none s = refl
after_submit-calls env id (some tx) s = elim (Bool-cases (is_empty tx)) [
  | inl missing ↦ rw missing (fail_event-calls env id s)
  | inr named ↦ rw named refl
]

note_fok-calls :
    (env : Answers) (id : ℕ) (status : Text) (s : RouterState)
    → (note_fok env id status s).calls ≡ s.calls
unfolding note_fok
note_fok-calls env id status s = elim (Bool-cases (text_eq (lower status) (codes "matched"))) [
  | inl full ↦ rw full refl
  | inr not_full ↦ elim (Bool-cases (text_eq (lower status) (codes "delayed"))) [
    | inl late ↦ rw (not_full, late) refl
    | inr odd ↦ rw (not_full, odd) (fail_event-calls env id s)
  ]
]

pub after_fok-calls :
    (env : Answers) (id : ℕ) (answer : FokAnswer) (s : RouterState)
    → (after_fok env id answer s).calls ≡ s.calls
unfolding after_fok
after_fok-calls env id rejected s = fail_event-calls env id s
after_fok-calls env id network_error s = refl
after_fok-calls env id (answered status order_id) s = elim (Bool-cases (is_empty order_id)) [
  | inl unnamed ↦ rw unnamed (note_fok-calls env id status s)
  | inr named ↦ rw named (note_fok-calls env id status _)
]

relayer_there : (able : Bool) → not able ≡ false → able ≡ true
relayer_there true e = refl
relayer_there false e = absurd (cc)

big_enough :
    (q least : ℕ) (able : Bool) → (ltb q least || not able) ≡ false → (least ≤ q) × (able ≡ true)
big_enough q least able e = elim (Bool-cases (ltb q least)) [
  | inl small ↦ absurd (cc (rw small at e))
  | inr big ↦ (omega tests, relayer_there able (rw big at e))
]

module _ (P : Call → Type 0) (cancels : (ids : List Text) → P (cancel_call ids))
    (env : Answers) where
  submit_merge-Added :
      (id : ℕ) (cid yes_token no_token : Text) (amount : ℕ) (s : RouterState)
      → P (merge_call id cid amount)
      → Added P s (submit_merge env id cid yes_token no_token amount s)
  unfolding submit_merge
  submit_merge-Added id cid yes_token no_token amount s merge =
      let one = cancel_sells yes_token s in
      let two = cancel_sells no_token one in
      let three = calling (merge_call id cid amount) two in
      let four = after_submit env id (env.merge_positions cid amount) three in
      Added-trans P s three four
        (Added-trans P s two three
          (Added-trans P s one two (cancel_sells-Added P cancels yes_token s)
            (cancel_sells-Added P cancels no_token one))
          (Added-call P (merge_call id cid amount) two merge))
        (Added-none P three four (after_submit-calls env id (env.merge_positions cid amount) three))

  after_pair-Added :
      (cid asset other : Text) (q : ℕ) (reserved : Option (ℕ × Table)) (s : RouterState)
      → ((id : ℕ) → P (merge_call id cid q))
      → Added P s (after_pair env cid asset other q reserved s).1
  unfolding after_pair
  after_pair-Added cid asset other q none s merges = Added-none P s s refl
  after_pair-Added cid asset other q (some (id, table)) s merges =
      submit_merge-Added id cid asset other q (record s { table = table }) (merges id)

  pub pair_merge_route-Added :
      (cid asset other : Text) (size other_size : ℕ) (lots other_lots : List Lot) (s : RouterState)
      → ((id : ℕ)
          → env.template.merge_min_shares ≤ pair_amount size other_size
          → env.relayer_ok ≡ true
          → P (merge_call id cid (pair_amount size other_size)))
      → Added P s (pair_merge_route env cid asset other size other_size lots other_lots s).1
  unfolding pair_merge_route
  pair_merge_route-Added cid asset other size other_size lots other_lots s merges =
      let q = pair_amount size other_size in
      elim (Bool-cases (ltb q env.template.merge_min_shares || not env.relayer_ok)) [
        | inl small ↦ rw small (Added-none P s s refl)
        | inr enough ↦
            let (big, able) = big_enough q env.template.merge_min_shares env.relayer_ok enough in
            rw enough (after_pair-Added cid asset other q _ s (λ id. merges id big able))
      ]

  send_fok-Added :
      (complement : Text) (worst size : ℕ)
      → ((id : ℕ) → P (fok_call id complement worst size))
      → (reserved : Option (ℕ × Table)) (s : RouterState)
      → Added P s (send_fok env complement worst size reserved s)
  unfolding send_fok
  send_fok-Added complement worst size h none s = Added-none P s s refl
  send_fok-Added complement worst size h (some (id, table)) s =
      let kept = record s { table = table } in
      let called = calling (fok_call id complement worst size) kept in
      let noted = after_fok env id (env.place_fok_buy complement worst size) called in
      Added-trans P s called noted (Added-call P (fok_call id complement worst size) kept (h id)) (
        Added-none P called noted
          (after_fok-calls env id (env.place_fok_buy complement worst size) called))

  pub start_fok_merge-Added :
      (cid asset complement : Text) (size worst : ℕ) (lots : List Lot)
      → ((id : ℕ) → P (fok_call id complement worst size))
      → (s : RouterState) → Added P s (start_fok_merge env cid asset complement size worst lots s)
  unfolding start_fok_merge
  start_fok_merge-Added cid asset complement size worst lots h s =
      send_fok-Added complement worst size h
        (create_merge_event env.db_now env.wallet cid fok_merge size asset complement
          (fifo_cost lots size) 0 s.table)
        s
