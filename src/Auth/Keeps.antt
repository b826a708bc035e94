-- ===== src/Auth/Keeps.antt =====
-- The end of Confirm (internal/auth/auth.go), where the sender joins filters, leaves the codes alone.
use chremoas_ng.Base.{
  ℕ, ◌≡◌, ◌&&◌, Option, none, some, List, Bool-cases, inl, inr, any, ◌==◌, nat_eq,
}
use chremoas_ng.Base.Text.{Str}
use chremoas_ng.Payloads.{Character}
use chremoas_ng.Common.StringSets.{StringSets}
use chremoas_ng.Database.{Db, CodeRow, insert_into_filter_membership, outcome_db}
use chremoas_ng.Filters.Members.{add_member}
use chremoas_ng.Filters.Keeps as FiltersKeeps
use chremoas_ng.Storage.AuthKeeps.{get_alliance-Keeps, get_corporation-Keeps}
use chremoas_ng.World.{Env}
use chremoas_ng.World.Keeps.{Keeps, Respects, keeps_rules}
use chremoas_ng.Auth.Confirm.{join_alliance, join_filters}

-- The codes are these.
pub record CodesAre (codes : List CodeRow) (db : Db) : Type 0 where
  pub same : db.auth.codes ≡ codes

module _ (codes : List CodeRow) where
  insertion-Respects : (f u : ℕ) → Respects (CodesAre codes) (insert_into_filter_membership f u)
  unfolding insert_into_filter_membership
  insertion-Respects f u = record {
    at = λ db h.
        elim (Bool-cases (any (λ m. m.filter == f && m.user_id == u) db.filter_membership)) [
          | inl held ↦ rw (held, outcome_db) h
          | inr new ↦ elim (Bool-cases (any (λ g. g.id == f) db.filters)) [
            | inl known ↦ rw (new, known, outcome_db) (record { same = h.same })
            | inr unknown ↦ rw (new, unknown, outcome_db) h
          ]
        ];
  }

  module _ (env : Env) (lib : StringSets) where
    add_member-Keeps :
        (user_id filter : Str) → Keeps (CodesAre codes) (add_member env lib user_id filter)
    add_member-Keeps = FiltersKeeps.add_member-Keeps env lib insertion-Respects

    join_alliance-Keeps :
        (sender : Str) (character : Character) (o : Option ℕ)
        → Keeps (CodesAre codes) (join_alliance env lib sender character o)
    unfolding join_alliance
    join_alliance-Keeps sender character none = search keeps_rules
    join_alliance-Keeps sender character (some id) =
        search (keeps_rules, get_alliance-Keeps, add_member-Keeps) depth 8

    pub join_filters-Keeps :
        (sender : Str) (character : Character)
        → Keeps (CodesAre codes) (join_filters env lib sender character)
    unfolding join_filters
    join_filters-Keeps sender character =
        search (keeps_rules, get_corporation-Keeps, add_member-Keeps, join_alliance-Keeps) depth 8
