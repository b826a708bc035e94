-- ===== src/Storage/Codes.antt =====
-- internal/storage/auth.go: authentication codes.
use chremoas_ng.Base.{ℕ, Bool, ◌==◌, nat_eq, bytes_eq, bool_eq, if◌then◌else◌, keep}
use chremoas_ng.Base.Text.{Str, lit}
use chremoas_ng.Database.{
  CodeRow, insert_into_authentication_codes, use_authentication_codes,
  delete_from_authentication_codes,
}
use chremoas_ng.World.{
  Env, M, pure, check, query, select, execute, first_row, Result, ok, err, is_no_rows, wrapped,
  no_auth_code,
}

-- The character, and whether the code has been used.
unfoldable pub found_code : Result CodeRow → Result (ℕ × Bool)
found_code (ok row) = ok (row.character_id, row.used)
found_code (err e) = err (if is_no_rows e then no_auth_code else e)

module _ (env : Env) where
  unfoldable pub get_auth_code : Str → M (Result (ℕ × Bool))
  unfolding found_code query
  get_auth_code code =
      check (query env (select (λ db. keep (λ c. c.code == code) db.auth.codes)))
        (λ e. pure (err e)) (λ found. pure (found_code (first_row found)))

  unfoldable pub delete_auth_codes : ℕ → M (Result Unit)
  unfolding query
  delete_auth_codes character_id =
      check
        (query env
          (execute (delete_from_authentication_codes (λ c. c.character_id == character_id))))
        (λ e. pure (err (wrapped (lit "error deleting user's auth codes: ") e))) (λ _. pure (ok tt))

  unfoldable pub insert_auth_code : ℕ → Str → M (Result Unit)
  unfolding query
  insert_auth_code character_id code =
      query env (insert_into_authentication_codes character_id code)

  unfoldable pub update_auth_code : Str → M (Result Unit)
  unfolding query
  update_auth_code code = query env (execute (use_authentication_codes (λ c. c.code == code)))
