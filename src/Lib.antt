-- ===== src/Lib.antt =====
-- Verification of chremoas-ng, a Discord bot that gives out roles from PostgreSQL tables.
--
-- The program. A chat command (internal/commands) is split at its spaces and handed to a service:
-- permissions (internal/perms), filters (internal/filters), roles (internal/roles), sigs, which are
-- roles that users may join (internal/sigs), or authentication (internal/auth). A filter is a list
-- of users; a role has filters, and a user has a role if they are in all of its filters, which the
-- PL/pgSQL function getMemberRoles (sql/003_getMemberRoles.up.sql) decides. The services read and
-- write the tables of sql/*.sql through internal/storage, reply with the texts and embeds of
-- internal/common, and queue a message for each role that a user gains or loses and for each role
-- that is made, changed or deleted. The handlers of the two queues (internal/discord) bring them to
-- Discord. A poller (internal/esi-poller) compares Discord and the game with the tables,
-- and queues and stores what differs.
--
-- The files.
--   Base: the names that all modules share, tests on numbers and byte strings, lists, text,
--     sorting.
--   Payloads: internal/payloads/payloads.go and data.go.
--   Database: the tables as lists of rows (Rows), a function for each statement (Filters,
--     Permissions, RoleColumns, Auth), getMemberRoles (MemberRoles) and what it means (AllFilters),
--     and the constraints of the schema (Invariant).
--   World: what a Go function reads and writes. A function that takes a context is an action on the
--     world: the tables, the two queues, the embeds sent, the changes that Discord was asked for,
--     and a clock that counts the calls of servers. It returns a value or panics; a Go error is a
--     value. `check` is the test of an error after a call. World.Keeps has a rule for each way to
--     build an action, for invariants that hold whatever fails; World.Runs follows an action step
--     by step; World.Gives has rules for what an action returns from any world, without a panic,
--     World.Yields for what it succeeds with, if it does.
--   Storage: internal/storage: Permissions, RoleFilters (role_filter.go), Filters (filter.go),
--     Roles and RoleValues (roles.go), Alliances, Corporations, Characters, Codes (auth.go) and
--     Users.
--   Common: internal/common: Embed, Messages, Mention (data.go), Session (discord.go), Chunks
--     (chunked_message.go), Membership (roles.go), CheckAndDelete (discord.go), and StringSets, the
--     interface of the string sets that the program imports.
--   Perms, Filters, Roles, Sigs, Auth, Commands: the services and the dispatch of their commands.
--     Roles has a file for the lists (Listing), Add and Destroy (Changes), Update, and the filters
--     of a role (Filters); Auth has Create, and Auth.Confirm the other half. Perms.Refusal has what a
--     refusal of CanPerform means, and the Keeps files what lists and refused commands keep, from
--     which Commands.Refusals and Commands.RoleRefusals follow it through every command.
--   Consumers: internal/discord: a handler takes the body of a delivery and returns the answers
--     that it gives, Ack or Reject with or without requeueing; the loop over the deliveries of a
--     channel collects them.
--   EsiPoller: internal/esi-poller: Roles, Alliances, Corporations, Characters, and Poll, which
--     calls them in turn. Messages has what the synchronisation of roles queues, Membership how the
--     roles of a member are brought into line, Failures what follows a failed request to the game.
--   Sets: internal/sets/chremoasRole.go, sets of roles by chat id, and their laws.
--   Tests: tables, servers and string sets on which the theorems are tried.
--
-- The servers are parameters. Env says for each call, by its number, whether it fails; how
-- PostgreSQL reads a text as a BIGINT, INT or BOOL; what Discord and the game answer,
-- a response and maybe an error beside it; and the random bytes. A statement that does not fail for
-- other reasons has the outcome that the schema prescribes: a violated unique index, foreign key or
-- length is an error, and a sequence advances even then. IsCalm says that neither the database nor
-- a queue fails; theorems that do not assume it hold whatever fails and wherever a function panics.
-- The string sets are an interface whose laws (IsLawful) speak of membership only; Tests.Sets fills
-- it by lists. Rows come in no particular order; a function that takes the first row takes the head
-- of the list.
--
-- Numbers are natural numbers: ids and chat ids are not negative, and -1 for an absent filter is
-- `none`. Strings are lists of bytes. The loops are structural on lists; `decimal` runs on fuel,
-- n + 1 for the digits of n, of which there are no more, and `hex6` on 17, since an int has at most
-- sixteen hexadecimal digits. A Go map is a list of its entries, gone through in the list's order.
-- A JSON decoder is a parameter of each handler. UpdateRoleValues is modelled for every column but
-- the two timestamps.
--
-- Not modelled: logging and tracing, contexts and their cancellation, locks, JSON and the closing
-- of rows; the timer of the poller; the set of Discord roles (internal/sets/discordRole.go), which
-- nothing uses; the web front end, AMQP, the configuration and start-up, which are input and
-- output.
pub mod Auth
pub mod Base
pub mod Commands
pub mod Common
pub mod Consumers
pub mod Database
pub mod EsiPoller
pub mod Filters
pub mod Payloads
pub mod Perms
pub mod Roles
pub mod Sets
pub mod Sigs
pub mod Storage
pub mod Tests
pub mod World
