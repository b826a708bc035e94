-- ===== src/Auth/Joins.antt =====
-- Confirm (internal/auth/auth.go) from the code to the filter of the corporation.
use chremoas_ng.Base.{
  ℕ, ◌≡◌, refl, ap, ◌∙◌, Bool, true, false, ◌&&◌, not, none, some, List, ◌∷◌, ◌++◌, ◌==◌, nat_eq,
  bytes_eq, keep, any, All,
}
use chremoas_ng.Base.Text.{Str, atoi}
use chremoas_ng.Payloads.{Action, MemberPayload}
use chremoas_ng.Common.StringSets.{StringSets, IsLawful}
use chremoas_ng.Database.{
  CharacterRow, CorporationRow, CodeRow, FilterRow, Db, fits, rows, insert_into_filter_membership,
}
use chremoas_ng.Filters.Gains.{Ends, holds, add_member_queues_gains}
use chremoas_ng.Filters.Members.{add_member}
use chremoas_ng.Filters.Queue.{zero_id}
use chremoas_ng.Storage.Characters.{character_of}
use chremoas_ng.Storage.Corporations.{get_corporation, found_corporation, corporation_of}
use chremoas_ng.World.{World, Env, Run, done, panic, M, pure, ◌>>=◌, tick, ok}
use chremoas_ng.World.Runs.{IsCalm, query-select, check-ok}
use chremoas_ng.Auth.Confirm.{success, join_alliance, join_filters, confirm}
use chremoas_ng.Auth.Claims.{claimed, confirm-claimed}

Ends-after :
    {A B : Type 0} (r : Run A) (b : B) (db : Db) (queue : List MemberPayload)
    → Ends r db queue
    → Ends (elim r [ done a w ↦ done b w | panic w ↦ panic w ]) db queue
Ends-after (done a w) b db queue h = h
Ends-after (panic w) b db queue h = h

Ends-bind :
    {A B : Type 0} (m : M A) (b : B) (w : World) (db : Db) (queue : List MemberPayload)
    → Ends (m w) db queue
    → Ends ((m >>= λ _. pure b) w) db queue
unfolding ◌>>=◌ pure
Ends-bind m b w db queue h = Ends-after (m w) b db queue h

module _ (env : Env) (calm : IsCalm env) (lib : StringSets) (sender : Str) where
  get_corporation-run :
      (id : ℕ) (w : World) (row : CorporationRow) (rest : List CorporationRow)
      → keep (λ c. c.id == id) w.db.auth.corporations ≡ row ∷ rest
      → get_corporation env id w ≡ done (ok (corporation_of row)) (tick w)
  unfolding get_corporation pure found_corporation
  get_corporation-run id w row rest found = check-ok _ _ _ w (tick w) (row ∷ rest) (
      query-select env (λ db. keep (λ c. c.id == id) db.auth.corporations) w calm
      ∙ ap (λ cs. done (ok cs) (tick w)) found)

  -- For a corporation that is in no alliance.
  join_filters-run :
      (character : CharacterRow) (w : World) (row : CorporationRow) (rest : List CorporationRow)
      → keep (λ c. c.id == character.corporation_id) w.db.auth.corporations ≡ row ∷ rest
      → row.alliance_id ≡ none
      → join_filters env lib sender (character_of character) w
        ≡ (add_member env lib sender row.ticker >>= λ _.
              success env lib sender (character_of character))
            (tick w)
  unfolding join_filters join_alliance character_of corporation_of
  join_filters-run character w row rest found alone =
      check-ok _ _ _ w (tick w) _ (get_corporation-run character.corporation_id w row rest found)
      ∙ rw alone refl

-- Without faults, a code that has not been used, of a character that is in the tables and not yet the
-- sender's, and whose corporation is in no alliance and has a filter: Confirm marks the code as used,
-- makes the character the sender's and the sender a member of that filter, and changes no other row.
-- The messages queued, all upserts for the sender, name the chat id `x` exactly if `x` is not 0 and the
-- sender holds a role with it after that and none before.
pub confirm_joins_corporation :
    (env : Env) (calm : IsCalm env) (lib : StringSets) (lawful : IsLawful lib) (code sender : Str)
    (w : World) (row : CodeRow) (rest : List CodeRow) (character : CharacterRow)
    (others : List CharacterRow) (corporation : CorporationRow) (corporations : List CorporationRow)
    (f : FilterRow) (fs : List FilterRow) (n : Bool × ℕ) (u : ℕ) (db : Db) (x : Str)
    → keep (λ c. c.code == code) w.db.auth.codes ≡ row ∷ rest
    → row.used ≡ false
    → keep (λ c. c.id == row.character_id) w.db.auth.characters ≡ character ∷ others
    → any (λ c. c.id == row.character_id) w.db.auth.characters ≡ true
    → any
        (λ m. sender == m.chat_id && row.character_id == m.character_id)
        w.db.auth.user_character_map
      ≡ false
    → fits 255 sender ≡ true
    → keep (λ c. c.id == character.corporation_id) w.db.auth.corporations
      ≡ corporation ∷ corporations
    → corporation.alliance_id ≡ none
    → atoi sender ≡ some n
    → env.bigint sender ≡ some u
    → keep (λ g. g.name == corporation.ticker) w.db.filters ≡ f ∷ fs
    → insert_into_filter_membership f.id u (claimed env calm code sender row.character_id w.db)
      ≡ rows tt db
    → (ps : List MemberPayload) × Ends (confirm env lib code sender w) db (w.members_queue ++ ps)
      × All (λ p. (p.action ≡ Action.upsert) × (p.member_id ≡ sender)) ps
      × (any (λ p. p.role_id == x) ps ≡ (
          not (x == zero_id)
          && (holds u db x
              && not (holds u (claimed env calm code sender row.character_id w.db) x))))
unfolding success
confirm_joins_corporation env calm lib lawful code sender w row rest character others corporation
      corporations f fs n u db x found unused one known unmapped short corp alone number readable
      filter inserted =
    let w5 : World = record (tick (tick (tick (tick w)))) {
      db = claimed env calm code sender row.character_id w.db;
    } in
    let joined =
      add_member_queues_gains env lib corporation.ticker sender n u f fs (tick w5) db x lawful calm
        number readable filter inserted in
    (
      joined.0,
      rw
          (confirm-claimed env calm lib code sender w row rest found character others unused one
              known unmapped short
            ∙ join_filters-run env calm lib sender character w5 corporation corporations corp alone)
          (Ends-bind _ _ (tick w5) db _ joined.1),
      joined.2,
      joined.3,
    )
