-- ===== src/Lifecycle/History.antt =====
-- What `AuditHistory` of engine.go reads back of a trade, over the memory store.
use event_correlator_tool.Common.{
  ◌<◌, String, true, false, some, List, [], ◌∷◌, ◌++◌, ◌≡◌, ◌≢◌, refl, sym, ap, ◌∙◌, ◌⊎◌, inl, inr,
  arith, keep, take, zero, suc, ℕ, Result, ok,
}
use event_correlator_tool.Common.Int.{ℤ}
use event_correlator_tool.Clock.{Time, Duration}
use event_correlator_tool.Model.{Bytes, TradeEvent, ReconciledEvent, AuditEntry}
use event_correlator_tool.Store.{AuditFilter, Store}
use event_correlator_tool.Memory.{Memory, has_every_source, is_duplicate, is_finalized, appended}
use event_correlator_tool.Memory.Invariant.{IsValid}
use event_correlator_tool.Memory.Invariant.Ingest.{not_duplicate}
use event_correlator_tool.Memory.Sweep.{memory_store, is_selected, limit_of}
use event_correlator_tool.Memory.Sweep.History.{get_audit-eq-take}
use event_correlator_tool.Engine.{Codec, new_engine}
use event_correlator_tool.Engine.Actions.{ingest, audit_history}
use event_correlator_tool.Lifecycle.Outcomes.{row, IsSubmitted, ingest-answers_reconciled}
use mathlib.Core.List.{reverse, reverse_aux}

-- The entries of other trades are not read.
keep-others :
    (f : AuditFilter) (log read : List AuditEntry)
    → f.trade_id ≢ ""
    → is_finalized log f.trade_id ≡ false
    → keep (is_selected f) (reverse_aux log read) ≡ keep (is_selected f) read
unfolding is_finalized is_selected
keep-others f [] read n h = refl
keep-others f (entry ∷ log) read n h =
    keep-others f log (entry ∷ read) n (ground arith) ∙ ground arith

reverse-snoc :
    (log read : List AuditEntry) (entry : AuditEntry)
    → reverse_aux (log ++ entry ∷ []) read ≡ entry ∷ reverse_aux log read
reverse-snoc [] read entry = refl
reverse-snoc (e ∷ log) read entry = reverse-snoc log (e ∷ read) entry

limit_of-pos : (limit : ℤ) → 0 < limit_of limit
unfolding limit_of
limit_of-pos limit = ground arith

take-one : {A : Type 0} (n : ℕ) (x : A) → 0 < n → take n (x ∷ []) ≡ x ∷ []
take-one zero x h = absurd (omega (arith, h))
take-one (suc zero) x h = refl
take-one (suc (suc n)) x h = refl

-- A log that ends with the first entry of a trade is read back as that entry.
read_last :
    (log : List AuditEntry) (entry : AuditEntry) (f : AuditFilter)
    → f.trade_id ≢ ""
    → entry.trade_id ≡ f.trade_id
    → (f.outcome ≡ "") ⊎ (entry.outcome ≡ f.outcome)
    → is_finalized log f.trade_id ≡ false
    → take (limit_of f.limit) (keep (is_selected f) (reverse (log ++ entry ∷ []))) ≡ entry ∷ []
unfolding is_selected
read_last log entry f n about outcome new =
    ap (λ l. take (limit_of f.limit) (keep (is_selected f) l)) (reverse-snoc log [] entry)
    ∙ ap (take (limit_of f.limit)) kept
    ∙ take-one (limit_of f.limit) entry (limit_of-pos f.limit)
  where
    kept : keep (is_selected f) (entry ∷ reverse log) ≡ entry ∷ []
    kept = ground (arith, keep-others f log [] n new)

outcome_read :
    {wanted outcome : String}
    → (wanted ≡ "") ⊎ (wanted ≡ "reconciled")
    → outcome ≡ "reconciled"
    → (wanted ≡ "") ⊎ (outcome ≡ wanted)
outcome_read (inl e) h = inl e
outcome_read (inr e) h = inr (h ∙ sym e)

module _ (sources : List String) (window : Duration) (codec : Codec) (s : Memory)
    (event : TradeEvent) (now : Time) (payload : Bytes) where
  -- What a trade's history reads back: one entry, that of the reconciled event.
  pub record ReadsBack (r : ReconciledEvent) (history : Result (List AuditEntry)) : Type 0 where
    pub entry : AuditEntry
    pub read : history ≡ ok (entry ∷ [])
    pub about : entry.trade_id ≡ event.trade_id
    pub outcome : entry.outcome ≡ "reconciled"
    pub listed : entry.sources ≡ r.sources
    pub detail : entry.detail ≡ codec.marshal_reconciled r

  -- In a valid memory store, after an event that names its trade, has an expected source and encodes,
  -- is no duplicate and completes its trade, `AuditHistory` for that trade, with any limit and with
  -- the outcome "reconciled" or none, reads back exactly one entry: that of the reconciled event which
  -- `Ingest` returned, with its sources and its encoding.
  pub reconciled-ReadsBack :
      IsValid sources s
      → IsSubmitted sources window codec s event now payload
      → is_duplicate s (row sources window codec s event now payload) ≡ false
      → has_every_source (appended s (row sources window codec s event now payload)) sources ≡ true
      → (f : AuditFilter) → f.trade_id ≡ event.trade_id
      → (f.outcome ≡ "") ⊎ (f.outcome ≡ "reconciled")
      → (r : ReconciledEvent) × ((ingest codec memory_store
            (new_engine sources window)
            s
            event
            now).0
          ≡ ok (record { status = "reconciled"; reconciled = some r }))
        × ReadsBack r (
            audit_history codec memory_store
              (ingest codec memory_store (new_engine sources window) s event now).1
              f)
  unfolding audit_history
  reconciled-ReadsBack v h new complete f same any =
      let (r, next, e, done) =
        ingest-answers_reconciled sources window codec s event now payload v h new complete in
      let (open_trade, _) = not_duplicate s (row sources window codec s event now payload) new in
      (
        r,
        ap (λ x. x.0) e,
        record {
          entry = done.entry;
          read =
              ap (λ x. Store.get_audit memory_store x f) (ap (λ x. x.1) e)
              ∙ get_audit-eq-take next f
              ∙ ap (λ l. ok (take (limit_of f.limit) (keep (is_selected f) (reverse l))))
                  done.logged
              ∙ ap ok (
                  read_last s.audit done.entry f (λ q. h.named (sym same ∙ q))
                    (done.about ∙ sym same) (outcome_read any done.outcome)
                    (ap (is_finalized s.audit) same ∙ open_trade));
          about = done.about;
          outcome = done.outcome;
          listed = done.listed;
          detail = done.detail;
        },
      )
