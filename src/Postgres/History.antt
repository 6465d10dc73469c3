-- ===== src/Postgres/History.antt =====
-- What `GetAudit` of postgres.go returns.
use event_correlator_tool.Common.{
  ℕ, ◌≤◌, String, List, [], ◌∷◌, ◌≡◌, refl, sym, subst, ◌∙◌, arith, keep, take, length, length-take,
  Result, ok, err, panic, ok-injective, ap,
}
use event_correlator_tool.Common.Int.{ℤ, pos_part}
use event_correlator_tool.Model.{AuditEntry}
use event_correlator_tool.Store.{AuditFilter}
use event_correlator_tool.Postgres.{Tables, Server, Connection, Action}
use event_correlator_tool.Postgres.Session.{check, follow, ◌>>=◌, query, read}
use event_correlator_tool.Postgres.Queries.{limit_of, matches, read_entries, get_audit}

limit_of-le : (limit : ℤ) → pos_part (limit_of limit) ≤ 500
unfolding limit_of
limit_of-le limit = ground arith

-- Where code returns, so did its first part.
follow-ok :
    {C A B : Type 0} (x : Result A × Connection C) (f : A → Action C B) (b : B)
    → (follow x f).0 ≡ ok b
    → (a : A) × (x.0 ≡ ok a) × ((f a x.1).0 ≡ ok b)
follow-ok (ok a, s) f b h = (a, refl, h)
follow-ok (err e, s) f b h = cc
follow-ok (panic, s) f b h = cc

then-ok :
    {C A B : Type 0} (m : Action C A) (f : A → Action C B) (s : Connection C) (b : B)
    → ((m >>= f) s).0 ≡ ok b
    → (a : A) × ((m s).0 ≡ ok a) × ((f a (m s).1).0 ≡ ok b)
unfolding ◌>>=◌
then-ok m f s b h = follow-ok (m s) f b h

module _ (server : Server) {C : Type 0} where
  query-ok :
      {A : Type 0} (label : String) (f : ℕ → Tables → A) (s : Connection C) (a : A)
      → (query server label f s).0 ≡ ok a
      → f s.requests s.work ≡ a
  unfolding query
  query-ok label f s a h = ground arith

  read-ok :
      {A : Type 0} (label : String) (f : ℕ → Tables → A) (s : Connection C) (a : A)
      → (read server label f s).0 ≡ ok a
      → f s.requests s.committed ≡ a
  unfolding read
  read-ok label f s a h = ground arith

  read_entries-ok :
      (rows : List AuditEntry) (s : Connection C) (entries : List AuditEntry)
      → (read_entries server rows s).0 ≡ ok entries
      → rows ≡ entries
  unfolding read_entries
  read_entries-ok [] s entries h = ok-injective h
  read_entries-ok (row ∷ rows) s entries h =
      let (a, first, h₁) = then-ok (query server _ (λ n t. row)) _ s entries h in
      let (_, checked, h₂) = then-ok (check _ _ tt) _ _ entries h₁ in
      let (rest, others, h₃) = then-ok (read_entries server rows) _ _ entries h₂ in
      ap (λ x. x ∷ rows) (query-ok _ (λ n t. row) s a first)
      ∙ ap (λ x. a ∷ x) (read_entries-ok rows _ rest others)
      ∙ ok-injective h₃

  -- Where `GetAudit` returns, it returns the committed entries that the filter selects, in the
  -- server's order, up to a limit of at most 500, and there are at most 500.
  pub get_audit-eq-selected :
      (f : AuditFilter) (s : Connection C) (entries : List AuditEntry)
      → (get_audit server f s).0 ≡ ok entries
      → (entries
          ≡ take
              (pos_part (limit_of f.limit))
              (server.newest_first (keep (matches f) s.committed.audit)))
        × (length entries ≤ 500)
  unfolding get_audit
  get_audit-eq-selected f s entries h =
      let selected : ℕ → Tables → List AuditEntry = λ n t.
        take (pos_part (limit_of f.limit)) (server.newest_first (keep (matches f) t.audit)) in
      let (rows, first, h₁) = then-ok (read server _ selected) _ s entries h in
      let (out, second, h₂) = then-ok (read_entries server rows) _ _ entries h₁ in
      let same =
        sym (query-ok _ (λ n t. out) _ entries h₂)
        ∙ sym (read_entries-ok rows _ out second)
        ∙ sym (read-ok _ selected s rows first) in
      (
        same,
        subst (λ l. length l ≤ 500) (sym same)
            (omega (
              arith,
              length-take (pos_part (limit_of f.limit))
                  (server.newest_first (keep (matches f) s.committed.audit)),
              limit_of-le f.limit,
            )),
      )
