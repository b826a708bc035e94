-- ===== src/Storage/Corporations.antt =====
-- internal/storage/corporation.go
use chremoas_ng.Base.{
  ℕ, Option, none, some, List, [], map, ◌==◌, nat_eq, bytes_eq, bool_eq, if◌then◌else◌, keep, count,
}
use chremoas_ng.Base.Text.{Str}
use chremoas_ng.Payloads.{Corporation}
use chremoas_ng.Database.{CorporationRow, upsert_corporations}
use chremoas_ng.World.{
  Env, M, pure, check, query, select, first_row, Result, ok, err, is_no_rows, no_corporation,
}

listed_corporation : CorporationRow → Corporation
listed_corporation c = record {
  id = c.id;
  name = c.name;
  ticker = c.ticker;
  alliance_id = c.alliance_id;
}

-- Only the ticker and the alliance are read.
unfoldable pub corporation_of : CorporationRow → Corporation
corporation_of c = record { id = 0; name = []; ticker = c.ticker; alliance_id = c.alliance_id }

unfoldable pub found_corporation : Result CorporationRow → Result Corporation
found_corporation (ok row) = ok (corporation_of row)
found_corporation (err e) = err (if is_no_rows e then no_corporation else e)

-- An id of 0 is NULL.
unfoldable pub nullable : ℕ → Option ℕ
nullable id = if id == 0 then none else some id

module _ (env : Env) where
  unfoldable pub get_corporation_count : ℕ → M (Result ℕ)
  unfolding query
  get_corporation_count id = query env (select (λ db. count (λ c. c.id == id) db.auth.corporations))

  unfoldable pub get_corporation : ℕ → M (Result Corporation)
  unfolding corporation_of found_corporation query
  get_corporation id =
      check (query env (select (λ db. keep (λ c. c.id == id) db.auth.corporations)))
        (λ e. pure (err e)) (λ found. pure (found_corporation (first_row found)))

  unfoldable pub get_corporations : M (Result (List Corporation))
  unfolding listed_corporation query
  get_corporations = query env (select (λ db. map listed_corporation db.auth.corporations))

  -- The error is logged and not returned.
  unfoldable pub upsert_corporation : ℕ → ℕ → Str → Str → M (Result Unit)
  unfolding nullable query
  upsert_corporation id alliance_id name ticker =
      let row : CorporationRow = record {
        id = id;
        name = name;
        ticker = ticker;
        alliance_id = nullable alliance_id;
      } in
      check (query env (upsert_corporations row)) (λ e. pure (ok tt)) (λ _. pure (ok tt))
