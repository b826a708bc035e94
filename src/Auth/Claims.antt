-- ===== src/Auth/Claims.antt =====
-- Confirm (internal/auth/auth.go): a code is used once.
use chremoas_ng.Base.{
  ℕ, ◌≡◌, refl, ap, ◌∙◌, All, true, false, ◌&&◌, ◌||◌, some, List, ◌∷◌, ◌++◌, map, keep, any, ◌==◌,
  nat_eq, bytes_eq,
}
use mathlib.Core.Path.{subst}
use chremoas_ng.Base.Search.{keep-passes, keep-map}
use chremoas_ng.Base.Text.{Str, lit}
use chremoas_ng.Common.Messages.{send_error}
use chremoas_ng.Common.StringSets.{StringSets}
use chremoas_ng.Database.{
  CharacterRow, CharacterMapRow, CodeRow, Db, fits, use_authentication_codes,
  insert_into_user_character_map,
}
use chremoas_ng.Storage.Characters.{character_of, found_character, get_character}
use chremoas_ng.Storage.Codes.{found_code, get_auth_code, update_auth_code}
use chremoas_ng.Storage.Users.{insert_user_character_map}
use chremoas_ng.World.{World, Env, done, pure, tick, execute, ok}
use chremoas_ng.World.Keeps.{final}
use chremoas_ng.Auth.Keeps.{join_filters-Keeps}
use chremoas_ng.World.Runs.{IsCalm, query-rows, query-select, check-ok}
use chremoas_ng.Auth.Confirm.{join_filters, claim, confirm}

module _ (env : Env) (calm : IsCalm env) where
  get_auth_code-run :
      (code : Str) (w : World) (row : CodeRow) (rest : List CodeRow)
      → keep (λ c. c.code == code) w.db.auth.codes ≡ row ∷ rest
      → get_auth_code env code w ≡ done (ok (row.character_id, row.used)) (tick w)
  unfolding get_auth_code pure found_code
  get_auth_code-run code w row rest found = check-ok _ _ _ w (tick w) (row ∷ rest) (
      query-select env (λ db. keep (λ c. c.code == code) db.auth.codes) w calm
      ∙ ap (λ cs. done (ok cs) (tick w)) found)

  get_character-run :
      (id : ℕ) (w : World) (row : CharacterRow) (rest : List CharacterRow)
      → keep (λ c. c.id == id) w.db.auth.characters ≡ row ∷ rest
      → get_character env id w ≡ done (ok (character_of row)) (tick w)
  unfolding get_character pure found_character
  get_character-run id w row rest found = check-ok _ _ _ w (tick w) (row ∷ rest) (
      query-select env (λ db. keep (λ c. c.id == id) db.auth.characters) w calm
      ∙ ap (λ cs. done (ok cs) (tick w)) found)

  -- The tables once the code is used and the character is the sender's.
  abbrev pub claimed : Str → Str → ℕ → Db → Db
  claimed code sender id db =
      let row : CharacterMapRow = record { chat_id = sender; character_id = id } in
      record db {
        auth = record db.auth {
          codes =
              map {A = CodeRow} (λ c. record c { used = c.code == code || c.used }) db.auth.codes;
          user_character_map = row ∷ db.auth.user_character_map;
        };
      }

  insert_mapping-run :
      (sender : Str) (id : ℕ) (w : World)
      → fits 255 sender ≡ true
      → any (λ m. sender == m.chat_id && id == m.character_id) w.db.auth.user_character_map ≡ false
      → any (λ c. c.id == id) w.db.auth.characters ≡ true
      → insert_user_character_map env sender id w
        ≡ done (ok tt) (record (tick w) {
          db = record w.db {
            auth = record w.db.auth {
              user_character_map =
                  record { chat_id = sender; character_id = id } ∷ w.db.auth.user_character_map;
            };
          };
        })
  unfolding insert_user_character_map pure insert_into_user_character_map
  insert_mapping-run sender id w short unmapped known = check-ok _ _ _ w _ tt (
      query-rows env (insert_into_user_character_map sender id) w tt _ calm
        (rw (insert_into_user_character_map, short, unmapped, known) refl))

  module _ (lib : StringSets) (code sender : Str) (w : World) (row : CodeRow) (rest : List CodeRow)
      (found : keep (λ c. c.code == code) w.db.auth.codes ≡ row ∷ rest) where
    -- A code that has been used.
    confirm_refuses_used_code :
        row.used ≡ true
        → confirm env lib code sender w
          ≡ done (send_error (some sender) (lit "Auth code already used: " ++ code)) (tick w)
    unfolding confirm pure
    confirm_refuses_used_code used =
        check-ok _ _ _ w (tick w) _ (get_auth_code-run code w row rest found) ∙ rw used refl

    -- Confirm up to where the sender joins filters.
    pub confirm-claimed :
        (character : CharacterRow) (others : List CharacterRow)
        → row.used ≡ false
        → keep (λ c. c.id == row.character_id) w.db.auth.characters ≡ character ∷ others
        → any (λ c. c.id == row.character_id) w.db.auth.characters ≡ true
        → any
            (λ m. sender == m.chat_id && row.character_id == m.character_id)
            w.db.auth.user_character_map
          ≡ false
        → fits 255 sender ≡ true
        → confirm env lib code sender w
          ≡ join_filters env lib sender
              (character_of character)
              (record (tick (tick (tick (tick w)))) {
                db = claimed code sender row.character_id w.db;
              })
    unfolding confirm claim pure update_auth_code use_authentication_codes
    confirm-claimed character others unused one known unmapped short =
        let w1 = tick w in
        let w2 = tick w1 in
        let w3 : World = record (tick w2) {
          db = use_authentication_codes (λ c. c.code == code) w.db;
        } in
        check-ok _ _ _ w w1 _ (get_auth_code-run code w row rest found)
        ∙ rw unused (
            check-ok _ _ _ w1 w2 _ (get_character-run row.character_id w1 character others one)
            ∙ check-ok _ _ _ w2 w3 tt (
                query-rows env (execute (use_authentication_codes (λ c. c.code == code))) w2 tt _
                  calm refl)
            ∙ check-ok _ _ _ w3 _ tt
                (insert_mapping-run sender row.character_id w3 short unmapped known))

module _ (code sender : Str) (id : ℕ) (w : World) (row : CodeRow) (rest : List CodeRow)
    (found : keep (λ c. c.code == code) w.db.auth.codes ≡ row ∷ rest) where
  abbrev mark : CodeRow → CodeRow
  mark c = record c { used = c.code == code || c.used }

  row_is_code : (row.code == code) ≡ true
  row_is_code =
      (subst (All (λ c. (c.code == code) ≡ true)) found
        (keep-passes (λ c. c.code == code) w.db.auth.codes)).0

  found_marked : keep (λ c. c.code == code) (map mark w.db.auth.codes) ≡ mark row ∷ map mark rest
  found_marked = keep-map (λ c. c.code == code) mark w.db.auth.codes ∙ ap (map mark) found

-- A code is used up by the Confirm that claims a character with it. Without faults, for a code that has
-- not been used, of a character that is in the tables and not yet the sender's: in any later world
-- whose codes are as that Confirm left them, whatever else has changed, a second Confirm of the code,
-- by anyone, is refused, and no table changes.
pub confirmed_code_is_refused :
    (env : Env) (calm : IsCalm env) (lib : StringSets) (code sender other : Str) (w later : World)
    (row : CodeRow) (rest : List CodeRow) (character : CharacterRow) (others : List CharacterRow)
    → keep (λ c. c.code == code) w.db.auth.codes ≡ row ∷ rest
    → row.used ≡ false
    → keep (λ c. c.id == row.character_id) w.db.auth.characters ≡ character ∷ others
    → any (λ c. c.id == row.character_id) w.db.auth.characters ≡ true
    → any
        (λ m. sender == m.chat_id && row.character_id == m.character_id)
        w.db.auth.user_character_map
      ≡ false
    → fits 255 sender ≡ true
    → later.db.auth.codes ≡ (final (confirm env lib code sender w)).db.auth.codes
    → confirm env lib code other later
      ≡ done (send_error (some other) (lit "Auth code already used: " ++ code)) (tick later)
confirmed_code_is_refused env calm lib code sender other w later row rest character others found
      unused one known unmapped short codes =
    let w5 : World = record (tick (tick (tick (tick w)))) {
      db = claimed env calm code sender row.character_id w.db;
    } in
    let left : (final (confirm env lib code sender w)).db.auth.codes ≡ w5.db.auth.codes =
      ap (λ r. (final r).db.auth.codes)
        (confirm-claimed env calm lib code sender w row rest found character others unused one known
          unmapped short)
      ∙ ((join_filters-Keeps w5.db.auth.codes env lib sender (character_of character)).at w5
          (record { same = refl })).same in
    let id = row.character_id in
    confirm_refuses_used_code env calm lib code other later
      (mark code sender id w row rest found row) (map (mark code sender id w row rest found) rest)
      (ap (keep (λ c. c.code == code)) (codes ∙ left)
        ∙ found_marked code sender id w row rest found)
      (rw (row_is_code code sender id w row rest found) refl)
