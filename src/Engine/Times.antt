-- ===== src/Engine/Times.antt =====
-- The times of `buildReconciled` and `buildBreak` of engine.go: what their two loops compute, where Go's
-- zero time stands for no event.
use event_correlator_tool.Common.{
  Bool, true, false, ◌||◌, some, List, [], ◌∷◌, ◌≡◌, ◌≢◌, sym, ◌∙◌, ap, subst, arith, inl, inr,
  Every, List-cases, String, refl,
}
use event_correlator_tool.Common.Int.{leb_ℤ}
use event_correlator_tool.Common.Sorting.{sort, insert}
use event_correlator_tool.Common.Sorting.Laws.{Every-sort}
use event_correlator_tool.Clock.{Time, zero_time, is_zero, before, milliseconds, sub}
use event_correlator_tool.Model.{BreakEvent, ReconciledEvent}
use event_correlator_tool.Store.{PendingTrade}
use event_correlator_tool.Engine.{
  Codec, Engine, sort_events, first_seen_of, last_deadline_of, break_of, build_break, reconciled_of,
  build_reconciled,
}
use event_correlator_tool.Engine.Break.{sort_events-eq-sort}

-- Whether some event passes a test
abbrev pub some_event : (PendingTrade → Bool) → List PendingTrade → Bool
some_event p [] = false
some_event p (event ∷ events) = p event || some_event p events

module _ (p : PendingTrade → Bool) where
  some_event-insert :
      (lt : PendingTrade → PendingTrade → Bool) (x : PendingTrade) (l : List PendingTrade)
      → some_event p (insert lt x l) ≡ (p x || some_event p l)
  unfolding insert
  some_event-insert lt x [] = refl
  some_event-insert lt x (y ∷ l) = ground (arith, some_event-insert lt x l)

  some_event-sort :
      (lt : PendingTrade → PendingTrade → Bool) (l : List PendingTrade)
      → some_event p (sort lt l) ≡ some_event p l
  unfolding sort
  some_event-sort lt [] = refl
  some_event-sort lt (x ∷ l) =
      some_event-insert lt x (sort lt l) ∙ ap (λ b. p x || b) (some_event-sort lt l)

  some_event-sort_events :
      (events : List PendingTrade) → some_event p (sort_events events) ≡ some_event p events
  some_event-sort_events events = rw sort_events-eq-sort (some_event-sort _ events)

-- The loop over the deadlines: from the zero time on, its result is the latest deadline.
last_deadline_of-latest :
    (t last : Time) (events : List PendingTrade)
    → leb_ℤ zero_time t ≡ true
    → before t (last_deadline_of last events)
      ≡ (before t last || some_event (λ event. before t event.deadline) events)
unfolding last_deadline_of
last_deadline_of-latest t last [] h = ground arith
last_deadline_of-latest t last (event ∷ events) h = ground (
  arith,
  last_deadline_of-latest t last events h,
  last_deadline_of-latest t event.deadline events h,
)

-- The loop over the times at which events were seen: its result is the earliest of them.
first_seen_of-earliest :
    (t first : Time) (events : List PendingTrade)
    → is_zero first ≡ false
    → Every (λ (event : PendingTrade). is_zero event.first_seen ≡ false) events
    → leb_ℤ (first_seen_of first events) t
      ≡ (leb_ℤ first t || some_event (λ event. leb_ℤ event.first_seen t) events)
unfolding first_seen_of
first_seen_of-earliest t first [] h all = ground arith
first_seen_of-earliest t first (event ∷ events) h (e, all) = ground (
  arith,
  first_seen_of-earliest t first events h all,
  first_seen_of-earliest t event.first_seen events e all,
)

module _ (codec : Codec) (events : List PendingTrade) (now : Time) where
  -- Where `buildBreak` returns, its window expiry is the latest deadline of the events: from the zero
  -- time on, a time is before it exactly if it is before the deadline of some event.
  pub build_break-Expires :
      (e : Engine) (id : String) (sorted : List PendingTrade) (b : BreakEvent) (t : Time)
      → build_break codec e id events now ≡ some (sorted, b)
      → leb_ℤ zero_time t ≡ true
      → before t b.window_expiry ≡ some_event (λ event. before t event.deadline) events
  unfolding build_break break_of
  build_break-Expires e id sorted b t ran h =
      let same : last_deadline_of zero_time (sort_events events) ≡ b.window_expiry = ground arith in
      ap (before t) (sym same)
      ∙ last_deadline_of-latest t zero_time (sort_events events) h
      ∙ ap (λ x. x || some_event (λ event. before t event.deadline) (sort_events events)) none_yet
      ∙ some_event-sort_events (λ event. before t event.deadline) events
    where
      none_yet : before t zero_time ≡ false
      none_yet = ground arith

  -- What the duration of a match is measured from: the earliest time at which an event was seen
  pub record Spans (r : ReconciledEvent) : Type 0 where
    pub first_seen : Time
    pub duration : r.match_duration ≡ milliseconds (sub now first_seen)
    pub earliest :
        (t : Time) → leb_ℤ first_seen t ≡ some_event (λ event. leb_ℤ event.first_seen t) events

  from_zero :
      (t : Time) (l : List PendingTrade)
      → l ≢ []
      → Every (λ (event : PendingTrade). is_zero event.first_seen ≡ false) l
      → leb_ℤ (first_seen_of zero_time l) t ≡ some_event (λ event. leb_ℤ event.first_seen t) l
  unfolding first_seen_of
  from_zero t [] h all = absurd (h refl)
  from_zero t (event ∷ l) h (e, all) = first_seen_of-earliest t event.first_seen l e all

  -- Where `buildReconciled` returns, and every event was seen at a time that is not the zero time, the
  -- match duration is the time in milliseconds from the earliest of those times to now.
  pub build_reconciled-Spans :
      (sorted : List PendingTrade) (r : ReconciledEvent)
      → build_reconciled codec events now ≡ some (sorted, r)
      → Every (λ (event : PendingTrade). is_zero event.first_seen ≡ false) events
      → Spans r
  unfolding build_reconciled reconciled_of
  build_reconciled-Spans sorted r ran all = elim (List-cases (sort_events events)) [
    | inl e ↦ ground (arith, e)
    | inr (first, rest, e) ↦ record {
      first_seen = first_seen_of zero_time (sort_events events);
      duration = ground (arith, e);
      earliest = λ t.
          from_zero t (sort_events events) (λ q. ground (arith, e, q))
            (subst (Every (λ (event : PendingTrade). is_zero event.first_seen ≡ false))
              (sym (sort_events-eq-sort events)) (Every-sort _ _ events all))
          ∙ some_event-sort_events (λ event. leb_ℤ event.first_seen t) events;
    }
  ]
