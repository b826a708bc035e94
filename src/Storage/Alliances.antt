-- ===== src/Storage/Alliances.antt =====
-- internal/storage/alliance.go
use chremoas_ng.Base.{ℕ, List, map, ◌==◌, nat_eq, bytes_eq, bool_eq, if◌then◌else◌, keep, count}
use chremoas_ng.Base.Text.{Str}
use chremoas_ng.Payloads.{Alliance}
use chremoas_ng.Database.{AllianceRow, upsert_alliances}
use chremoas_ng.World.{
  Env, M, pure, check, query, select, first_row, Result, ok, err, is_no_rows, no_alliance,
}

alliance_of : AllianceRow → Alliance
alliance_of a = record { id = a.id; name = a.name; ticker = a.ticker }

found_alliance : Result AllianceRow → Result Alliance
found_alliance (ok row) = ok (alliance_of row)
found_alliance (err e) = err (if is_no_rows e then no_alliance else e)

module _ (env : Env) where
  unfoldable pub get_alliance_count : ℕ → M (Result ℕ)
  unfolding query
  get_alliance_count id = query env (select (λ db. count (λ a. a.id == id) db.auth.alliances))

  unfoldable pub get_alliance : ℕ → M (Result Alliance)
  unfolding alliance_of found_alliance query
  get_alliance id =
      check (query env (select (λ db. keep (λ a. a.id == id) db.auth.alliances)))
        (λ e. pure (err e)) (λ found. pure (found_alliance (first_row found)))

  unfoldable pub get_alliances : M (Result (List Alliance))
  unfolding alliance_of query
  get_alliances = query env (select (λ db. map alliance_of db.auth.alliances))

  unfoldable pub upsert_alliance : ℕ → Str → Str → M (Result Unit)
  unfolding query
  upsert_alliance id name ticker =
      let row : AllianceRow = record { id = id; name = name; ticker = ticker } in
      query env (upsert_alliances row)
