-- ===== src/EsiPoller/Membership.antt =====
-- The end of updateCharacter (internal/esi-poller/character.go): the roles of a member in Discord, and
-- those that the tables give. Also the loops of addCorpMembers and removeCorpMembers.
use chremoas_ng.Base.{
  ℕ, suc, arith, ◌≡◌, refl, ap, ◌∙◌, Bool, not, ◌&&◌, some, List, [], ◌∷◌, ◌==◌, bytes_eq, any,
  contains, length,
}
use chremoas_ng.Base.Text.{Str, is_empty, atoi, decimal}
use chremoas_ng.Payloads.{Action}
use chremoas_ng.Common.Runs.{membership_of, get_membership-run}
use chremoas_ng.Common.StringSets.{StringSets, IsLawful}
use chremoas_ng.Database.{Db}
use chremoas_ng.Filters.Gains.{holds, has-membership_of}
use chremoas_ng.Filters.Members.{add_member, remove_member}
use chremoas_ng.Filters.Messages.{messages_for, published, queue_updates-run, any-messages_for}
use chremoas_ng.Filters.Queue.{zero_id}
use chremoas_ng.World.{World, Env, Member, ◌>>◌, done, tick, pure, ok}
use chremoas_ng.World.Runs.{IsCalm, check-ok, then-done}
use chremoas_ng.EsiPoller.Corporations.{add_positions, remove_positions}
use chremoas_ng.EsiPoller.Characters.{follow_membership}

module _ (lib : StringSets) (u : ℕ) (member : Member) (db : Db) where
  -- What the tables give and the member does not have.
  abbrev pub missing : List Str
  missing =
      lib.to_slice (lib.difference (membership_of lib u db) (lib.from_slice member.roles lib.new))

  -- What the member has and the tables do not give.
  abbrev pub excess : List Str
  excess =
      lib.to_slice (lib.difference (lib.from_slice member.roles lib.new) (membership_of lib u db))

  module _ (lawful : IsLawful lib) (x : Str) where
    has-held :
        lib.has (lib.from_slice member.roles lib.new) x
        ≡ (not (is_empty x) && contains member.roles x)
    has-held = lawful.has-from_slice member.roles lib.new x ∙ rw (lawful.has-new x) (ground arith)

    pub contains-missing :
        contains missing x ≡ (holds u db x && not (not (is_empty x) && contains member.roles x))
    contains-missing =
        lawful.contains-to_slice _ x
        ∙ lawful.has-difference _ _ x
        ∙ rw (has-held, has-membership_of lib lawful u db x) refl

    pub contains-excess :
        contains excess x ≡ ((not (is_empty x) && contains member.roles x) && not (holds u db x))
    contains-excess =
        lawful.contains-to_slice _ x
        ∙ lawful.has-difference _ _ x
        ∙ rw (has-held, has-membership_of lib lawful u db x) refl

-- Without faults, for a user whose id is a number, the member's roles are brought into line: first the
-- additions are queued, then the deletions, and nothing else changes. An addition is queued for
-- exactly the roles, but the zero one, that the tables give the user and the member does not have in
-- Discord; a deletion for exactly those that the member has and the tables do not give.
pub follow_membership_reconciles :
    (env : Env) (calm : IsCalm env) (lib : StringSets) (lawful : IsLawful lib) (chat_id : Str)
    (member : Member) (n : Bool × ℕ) (u : ℕ) (w : World) (x : Str)
    → atoi chat_id ≡ some n
    → env.bigint chat_id ≡ some u
    → (follow_membership env lib chat_id member w
        ≡ done (ok tt) (
            published env Action.delete chat_id
              (messages_for env Action.delete chat_id (excess lib u member w.db))
              (published env Action.add chat_id
                (messages_for env Action.add chat_id (missing lib u member w.db))
                (tick (tick w)))))
      × (any (λ p. p.role_id == x) (messages_for env Action.add chat_id (missing lib u member w.db))
          ≡ (not (x == zero_id)
              && (holds u w.db x && not (not (is_empty x) && contains member.roles x))))
      × (any
            (λ p. p.role_id == x)
            (messages_for env Action.delete chat_id (excess lib u member w.db))
          ≡ (not (x == zero_id)
              && ((not (is_empty x) && contains member.roles x) && not (holds u w.db x))))
unfolding follow_membership pure
follow_membership_reconciles env calm lib lawful chat_id member n u w x number readable = (
  check-ok _ _ _ w (tick (tick w)) _ (get_membership-run env calm lib chat_id n u w number readable)
      ∙ then-done _ _ (tick (tick w)) _ tt (
          queue_updates-run env Action.add chat_id (missing lib u member w.db) (tick (tick w)) calm)
      ∙ then-done _ _ _ _ tt
          (queue_updates-run env Action.delete chat_id (excess lib u member w.db) _ calm),
  any-messages_for env Action.add chat_id (missing lib u member w.db) x
      ∙ ap (λ b. not (x == zero_id) && b) (contains-missing lib u member w.db lawful x),
  any-messages_for env Action.delete chat_id (excess lib u member w.db) x
      ∙ ap (λ b. not (x == zero_id) && b) (contains-excess lib u member w.db lawful x),
)

module _ (env : Env) (lib : StringSets) (ticker : Str) where
  add_positions-same :
      (i : ℕ) (ms ns : List ℕ)
      → length ms ≡ length ns
      → add_positions env lib ticker i ms ≡ add_positions env lib ticker i ns
  unfolding add_positions
  add_positions-same i [] [] e = refl
  add_positions-same i [] (n ∷ ns) e = let never : ⊥ = omega arith in absurd never
  add_positions-same i (m ∷ ms) [] e = let never : ⊥ = omega arith in absurd never
  add_positions-same i (m ∷ ms) (n ∷ ns) e =
      let fewer : length ms ≡ length ns = omega arith in
      ap (λ rest. add_member env lib (decimal i) ticker >> rest)
        (add_positions-same (suc i) ms ns fewer)

  remove_positions-same :
      (i : ℕ) (ms ns : List ℕ)
      → length ms ≡ length ns
      → remove_positions env lib ticker i ms ≡ remove_positions env lib ticker i ns
  unfolding remove_positions
  remove_positions-same i [] [] e = refl
  remove_positions-same i [] (n ∷ ns) e = let never : ⊥ = omega arith in absurd never
  remove_positions-same i (m ∷ ms) [] e = let never : ⊥ = omega arith in absurd never
  remove_positions-same i (m ∷ ms) (n ∷ ns) e =
      let fewer : length ms ≡ length ns = omega arith in
      ap (λ rest. remove_member env lib (decimal i) ticker >> rest)
        (remove_positions-same (suc i) ms ns fewer)

-- Whom a corporation's change of alliance adds to the new alliance's filter, and removes from the
-- old one's, does not depend on who the corporation's members are: for two lists of members of one
-- length the same is done, whatever the servers answer.
pub switch_ignores_members :
    (env : Env) (lib : StringSets) (ticker : Str) (i : ℕ) (ms ns : List ℕ)
    → length ms ≡ length ns
    → (add_positions env lib ticker i ms ≡ add_positions env lib ticker i ns)
      × (remove_positions env lib ticker i ms ≡ remove_positions env lib ticker i ns)
switch_ignores_members env lib ticker i ms ns e =
    (add_positions-same env lib ticker i ms ns e, remove_positions-same env lib ticker i ms ns e)
