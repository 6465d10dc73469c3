-- ===== src/Postgres/Opening.antt =====
-- `New` and `Migrate` of postgres.go. The pool's settings have no effect that is modelled.
use event_correlator_tool.Common.{String, Option, none, some, Result, ok, err, ◌>>=◌, wrap}

-- An error of the driver as a result
abbrev pub reported : Option String → Result {0} Unit
reported none = ok tt
reported (some e) = err e

-- `New`: `parse` is `pgx.ParseConfig`, and `ping` is `db.PingContext` on the pool that the driver
-- opens for the URL.
unfoldable pub new : (String → Option String) → (String → Option String) → String → Result {0} Unit
new parse ping database_url =
    wrap "parse database URL: " (reported (parse database_url))
    >>= (λ _. wrap "ping database: " (reported (ping database_url)))

-- `Migrate`: `read` is `migrationSQL`, and `run` executes the text.
unfoldable pub migrate : Result String → (String → Option String) → Result {0} Unit
migrate read run =
    wrap "read migration: " read
    >>= (λ migration. wrap "run migration: " (reported (run migration)))
