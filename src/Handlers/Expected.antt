-- ===== src/Handlers/Expected.antt =====
-- What the tools of main.go are to reply, field by field, and what their optional arguments stand for.
use event_correlator_tool.Common.{
  String, true, false, not, ◌||◌, ◌&&◌, Option, none, some, [], ◌≡◌, refl, sym, subst, ◌⊎◌, inl,
  inr, arith, Result, ok, err, Bool-cases, ◌==◌,
}
use event_correlator_tool.Common.Int.{ℤ, pos, ◌≤ℤ◌, ltb_ℤ}
use event_correlator_tool.Common.Dict.{Dict}
use event_correlator_tool.Common.Strings.{trim_space}
use event_correlator_tool.Clock.{Time}
use event_correlator_tool.Model.{TradeEvent}
use event_correlator_tool.Store.{AuditFilter}
use event_correlator_tool.Sdk.Outcome.{ToolResult}
use event_correlator_tool.Handlers.{
  IngestTradeEventParams, GetAuditHistoryParams, Datum, event_of, filter_of, value_or_zero,
}

-- A successful result with a message and data
abbrev pub Succeeds : String → Dict Datum → Result (ToolResult Datum) → Type 0
Succeeds message fields result =
    result
    ≡ ok (record {
      status = "success";
      message = message;
      fields = fields;
      data_objects = [];
      error_code = "";
    })

-- A result with an error's message and code
abbrev pub Fails : String → String → Result (ToolResult Datum) → Type 0
Fails message code result =
    result
    ≡ ok (record {
      status = "error";
      message = message;
      fields = [];
      data_objects = [];
      error_code = code;
    })

-- The value of an optional argument, with what is taken where it is missing
abbrev pub IsGiven {ℓ} : {T : Type ℓ} → T → Option T → T → Type ℓ
IsGiven missing none v = v ≡ missing
IsGiven missing (some x) v = v ≡ x

-- A text without the spaces around it, empty where it is missing
abbrev pub IsTrimmed : Option String → String → Type 0
IsTrimmed none v = v ≡ ""
IsTrimmed (some text) v = v ≡ trim_space text

-- The event that the arguments of `ingestTradeEvent` describe
pub record Describes (p : IngestTradeEventParams) (timestamp : Time) (event : TradeEvent)
    : Type 0 where
  pub trade_id : event.trade_id ≡ p.trade_id
  pub source : event.source ≡ p.source
  pub time : event.timestamp ≡ timestamp
  pub instrument : IsGiven "" p.instrument event.instrument
  pub quantity : IsGiven 0 p.quantity event.quantity
  pub price : IsGiven 0 p.price event.price
  pub currency : IsGiven "" p.currency event.currency
  pub counterparty : IsGiven "" p.counterparty event.counterparty

value_or_zero-IsGiven {ℓ} :
    {T : Type ℓ} (missing : T) (arg : Option T) → IsGiven missing arg (value_or_zero missing arg)
unfolding value_or_zero
value_or_zero-IsGiven missing none = refl
value_or_zero-IsGiven missing (some x) = refl

value_or_zero-IsTrimmed : (arg : Option String) → IsTrimmed arg (trim_space (value_or_zero "" arg))
unfolding value_or_zero trim_space
value_or_zero-IsTrimmed none = refl
value_or_zero-IsTrimmed (some text) = refl

pub event_of-Describes :
    (p : IngestTradeEventParams) (timestamp : Time) → Describes p timestamp (event_of p timestamp)
unfolding event_of
event_of-Describes p timestamp = record {
  trade_id = refl;
  source = refl;
  time = refl;
  instrument = value_or_zero-IsGiven "" p.instrument;
  quantity = value_or_zero-IsGiven 0 p.quantity;
  price = value_or_zero-IsGiven 0 p.price;
  currency = value_or_zero-IsGiven "" p.currency;
  counterparty = value_or_zero-IsGiven "" p.counterparty;
}

-- The filter that the arguments of `getAuditHistory` ask for
pub record Asks (q : GetAuditHistoryParams) (f : AuditFilter) : Type 0 where
  pub trade : IsTrimmed q.trade_id f.trade_id
  pub outcome : IsTrimmed q.outcome f.outcome
  pub limit : IsGiven (pos 100) q.limit f.limit

abbrev pub IsOutcome : String → Type 0
IsOutcome outcome = (outcome ≡ "") ⊎ (outcome ≡ "reconciled") ⊎ (outcome ≡ "break")

abbrev pub IsInRange : ℤ → Type 0
IsInRange limit = (pos 1 ≤ℤ limit) × (limit ≤ℤ pos 500)

-- What the checks of `getAuditHistory` make of the filter that is asked for
pub data IsChecked (f : AuditFilter) : Result AuditFilter → Type 0 where
  bad_outcome : ¬ IsOutcome f.outcome → IsChecked f (err "INVALID_OUTCOME")
  bad_limit : IsOutcome f.outcome → ¬ IsInRange f.limit → IsChecked f (err "INVALID_LIMIT")
  allowed : IsOutcome f.outcome → IsInRange f.limit → IsChecked f (ok f)

abbrev pub asked_for : GetAuditHistoryParams → AuditFilter
asked_for q = record {
  trade_id = trim_space (value_or_zero "" q.trade_id);
  outcome = trim_space (value_or_zero "" q.outcome);
  limit = value_or_zero (pos 100) q.limit;
}

pub asked_for-Asks : (q : GetAuditHistoryParams) → Asks q (asked_for q)
asked_for-Asks q = record {
  trade = value_or_zero-IsTrimmed q.trade_id;
  outcome = value_or_zero-IsTrimmed q.outcome;
  limit = value_or_zero-IsGiven (pos 100) q.limit;
}

known-IsOutcome :
    (o : String)
    → (not (o == "") && not (o == "reconciled") && not (o == "break")) ≡ false
    → IsOutcome o
known-IsOutcome o e = ground arith

refused-IsOutcome :
    (o : String)
    → (not (o == "") && not (o == "reconciled") && not (o == "break")) ≡ true
    → ¬ IsOutcome o
refused-IsOutcome o e h = ground arith

in_range : (n : ℤ) → (ltb_ℤ n (pos 1) || ltb_ℤ (pos 500) n) ≡ false → IsInRange n
in_range n e = ground arith

out_of_range : (n : ℤ) → (ltb_ℤ n (pos 1) || ltb_ℤ (pos 500) n) ≡ true → ¬ IsInRange n
out_of_range n e h = ground arith

pub filter_of-IsChecked : (q : GetAuditHistoryParams) → IsChecked (asked_for q) (filter_of q)
unfolding filter_of
filter_of-IsChecked q =
    let f = asked_for q in
    elim (Bool-cases
      (not (f.outcome == "") && not (f.outcome == "reconciled") && not (f.outcome == "break"))) [
        | inl e ↦ rw (e, filter_of) (bad_outcome (refused-IsOutcome f.outcome e))
        | inr e ↦ elim (Bool-cases (ltb_ℤ f.limit (pos 1) || ltb_ℤ (pos 500) f.limit)) [
          | inl g ↦
              rw (e, g, filter_of)
                (bad_limit (known-IsOutcome f.outcome e) (out_of_range f.limit g))
          | inr g ↦
              rw (e, g, filter_of) (allowed (known-IsOutcome f.outcome e) (in_range f.limit g))
        ]
      ]

IsGiven-eq {ℓ} :
    {T : Type ℓ} (missing : T) (arg : Option T) (v : T)
    → IsGiven missing arg v
    → v ≡ value_or_zero missing arg
unfolding value_or_zero
IsGiven-eq missing none v e = e
IsGiven-eq missing (some x) v e = e

IsTrimmed-eq :
    (arg : Option String) (v : String) → IsTrimmed arg v → v ≡ trim_space (value_or_zero "" arg)
unfolding value_or_zero trim_space
IsTrimmed-eq none v e = e
IsTrimmed-eq (some text) v e = e

-- The arguments ask for one filter.
Asks-eq : (q : GetAuditHistoryParams) (f : AuditFilter) → Asks q f → f ≡ asked_for q
Asks-eq q f h =
    let t = IsTrimmed-eq q.trade_id f.trade_id h.trade in
    let o = IsTrimmed-eq q.outcome f.outcome h.outcome in
    let n = IsGiven-eq (pos 100) q.limit f.limit h.limit in
    λ i. record { trade_id = t i; outcome = o i; limit = n i }

IsChecked-ok :
    (f : AuditFilter) {r : Result AuditFilter}
    → IsChecked f r
    → IsOutcome f.outcome
    → IsInRange f.limit
    → r ≡ ok f
IsChecked-ok f (bad_outcome wrong) o n = absurd (wrong o)
IsChecked-ok f (bad_limit _ wrong) o n = absurd (wrong n)
IsChecked-ok f (allowed _ _) o n = refl

-- A filter that the arguments ask for, with one of the outcomes and a limit in the range, is used.
pub filter_of-ok :
    (q : GetAuditHistoryParams) (f : AuditFilter)
    → Asks q f
    → IsOutcome f.outcome
    → IsInRange f.limit
    → filter_of q ≡ ok f
filter_of-ok q f h =
    subst (λ x. IsOutcome x.outcome → IsInRange x.limit → filter_of q ≡ ok x) (sym (Asks-eq q f h))
      (IsChecked-ok (asked_for q) (filter_of-IsChecked q))
