-- ===== src/Roles/Creation.antt =====
-- Add (internal/roles/roles.go): all that a new role consists of.
use chremoas_ng.Base.{
  ℕ, suc, arith, ◌≡◌, refl, ◌∙◌, Bool, true, false, ◌&&◌, ◌||◌, some, none, List, [], ◌∷◌, ◌++◌,
  ◌==◌, nat_eq, bytes_eq, bool_eq, any,
}
use chremoas_ng.Base.Text.{Str, lit, is_empty}
use chremoas_ng.Payloads.{Action, RolePayload, zero_role}
use chremoas_ng.Database.{
  Db, FilterRow, RoleRow, RoleFilterRow, fits, insert_into_roles, insert_into_role_filters,
}
use chremoas_ng.Common.Messages.{send_success}
use chremoas_ng.Common.Session.{publish_role}
use chremoas_ng.Filters.Commands as FilterCommands
use chremoas_ng.Storage.FilterLaws.{with_filter, insert_filter-run}
use chremoas_ng.Storage.RoleFilters.{insert_role_filter}
use chremoas_ng.Storage.Roles.{insert_role}
use chremoas_ng.World.{World, Env, MessageSend, done, pure, tick, ok}
use chremoas_ng.World.Runs.{IsCalm, query-rows, check-ok, bind-done}
use chremoas_ng.Roles.Helpers.{role_types, valid_list_item, queue_update}
use chremoas_ng.Roles.Changes.{created, filter_description, finish_add, create, add}

-- The arguments pass the checks of Add, fit the columns, and name no role or filter that exists.
pub record IsNew (sig : Bool) (ticker name chat_type : Str) (db : Db) : Type 0 where
  pub given : (is_empty chat_type || is_empty ticker || is_empty name) ≡ false
  pub known_type : valid_list_item chat_type role_types ≡ true
  pub role_fits : (fits 256 name && fits 70 ticker && fits 32 chat_type) ≡ true
  pub filter_fits : (fits 32 ticker && fits 256 (filter_description sig ticker)) ≡ true
  pub free_name : any (λ r. r.name == name && r.sig == sig) db.roles ≡ false
  pub free_filter : any (λ f. f.name == ticker) db.filters ≡ false

module _ (sig joinable : Bool) (ticker name chat_type : Str) where
  abbrev pub new_role : ℕ → RoleRow
  new_role id = record {
    id = id;
    color = 0;
    hoist = false;
    joinable = joinable;
    managed = true;
    mentionable = true;
    name = name;
    permissions = 0;
    position = 0;
    role_nick = ticker;
    sig = sig;
    sync = sig;
    chat_type = chat_type;
    chat_id = 0;
  }

  -- The tables with the role alone.
  abbrev with_role : Db → Db
  with_role db = record db {
    roles_next = suc db.roles_next;
    roles = new_role db.roles_next ∷ db.roles;
  }

  abbrev pub new_filter : ℕ → FilterRow
  new_filter id = record { id = id; name = ticker; description = filter_description sig ticker }

  -- The tables with the role, its filter, and that the role has the filter.
  abbrev pub with_all : Db → Db
  with_all db =
      let link : RoleFilterRow = record { role = db.roles_next; filter = db.filters_next } in
      record db {
        roles_next = suc db.roles_next;
        roles = new_role db.roles_next ∷ db.roles;
        filters_next = suc db.filters_next;
        filters = new_filter db.filters_next ∷ db.filters;
        role_filters = link ∷ db.role_filters;
      }

  abbrev pub filter_reply : List MessageSend
  filter_reply = send_success none (lit "Created filter `" ++ (ticker ++ lit "`"))

  module _ (env : Env) (calm : IsCalm env) where
    -- The message that has Discord make the role.
    abbrev pub creation : RolePayload
    creation = record {
      action = Action.upsert;
      guild_id = env.guild_id;
      role = record zero_role { name = name };
      correlation_id = env.correlation_id;
    }

    insert_role-run :
        (w : World)
        → IsNew sig ticker name chat_type w.db
        → insert_role env name ticker chat_type sig joinable w
          ≡ done (ok w.db.roles_next) (record (tick w) { db = with_role w.db })
    unfolding insert_role pure insert_into_roles
    insert_role-run w new =
        check-ok _ _ _ w (record (tick w) { db = with_role w.db }) _
          (query-rows env (insert_into_roles sig joinable name ticker chat_type sig) w
            w.db.roles_next _ calm (rw (insert_into_roles, new.role_fits, new.free_name) refl))

    add_filter-run :
        (w : World)
        → (fits 32 ticker && fits 256 (filter_description sig ticker)) ≡ true
        → any (λ f. f.name == ticker) w.db.filters ≡ false
        → FilterCommands.add env ticker (filter_description sig ticker) w
          ≡ done
              (filter_reply, some w.db.filters_next)
              (with_filter env calm ticker (filter_description sig ticker) w)
    unfolding FilterCommands.add pure
    add_filter-run w short free =
        check-ok _ _ _ w (with_filter env calm ticker (filter_description sig ticker) w) _
          (insert_filter-run env calm ticker (filter_description sig ticker) w short free)

    link-run :
        (w : World) (role filter : ℕ)
        → any (λ r. r.id == role) w.db.roles ≡ true
        → any (λ f. f.id == filter) w.db.filters ≡ true
        → insert_role_filter env role (some filter) w
          ≡ done (ok tt) (record (tick w) {
            db = record w.db {
              role_filters = record { role = role; filter = filter } ∷ w.db.role_filters;
            };
          })
    unfolding insert_role_filter pure insert_into_role_filters
    link-run w role filter known_role known_filter = check-ok _ _ _ w _ tt (
        query-rows env (insert_into_role_filters role (some filter)) w tt _ calm
          (rw (insert_into_role_filters, known_role, known_filter) refl))

    queue-run :
        (w : World)
        → queue_update env (record zero_role { name = name }) Action.upsert w
          ≡ done (ok tt) (record (tick w) { roles_queue = w.roles_queue ++ (creation ∷ []) })
    unfolding queue_update publish_role pure
    queue-run w =
        check-ok _ _ _ w (record (tick w) { roles_queue = w.roles_queue ++ (creation ∷ []) }) tt
          (rw (publish_role, calm.publish w.clock) refl)

    create-run :
        (w : World)
        → IsNew sig ticker name chat_type w.db
        → create env sig joinable ticker name chat_type w
          ≡ done (created sig ticker filter_reply) (record w {
            db = with_all w.db;
            clock = suc (suc (suc (suc w.clock)));
            roles_queue = w.roles_queue ++ (creation ∷ []);
          })
    unfolding create finish_add pure
    create-run w new =
        let w1 : World = record (tick w) { db = with_role w.db } in
        let w2 : World = with_filter env calm ticker (filter_description sig ticker) w1 in
        let w3 : World = record (tick w2) { db = with_all w.db } in
        check-ok _ _ _ w w1 _ (insert_role-run w new)
        ∙ bind-done _ _ w1 w2 _ (add_filter-run w1 new.filter_fits new.free_filter)
        ∙ check-ok _ _ _ w2 w3 tt
            (link-run w2 w.db.roles_next w.db.filters_next (ground arith) (ground arith))
        ∙ check-ok _ _ _ w3 _ tt (queue-run w3)

    -- Without faults, Add with arguments that pass its checks and fit the columns, where no role of
    -- the kind has the name and no filter is named like the ticker, adds the role, synchronised
    -- exactly if it is a sig, a filter with the role's ticker for a name, and the link from the role
    -- to the filter; it changes no other row, and queues one message that has Discord make the role.
    pub add_creates_role_and_filter :
        (w : World)
        → IsNew sig ticker name chat_type w.db
        → add env sig joinable ticker name chat_type w
          ≡ done (created sig ticker filter_reply) (record w {
            db = with_all w.db;
            clock = suc (suc (suc (suc w.clock)));
            roles_queue = w.roles_queue ++ (creation ∷ []);
          })
    unfolding add
    add_creates_role_and_filter w new =
        let typed : is_empty chat_type ≡ false = ground (arith, new.given) in
        let ticked : is_empty ticker ≡ false = ground (arith, new.given) in
        let named : is_empty name ≡ false = ground (arith, new.given) in
        rw (add, typed, ticked, named, new.known_type) (create-run w new)
