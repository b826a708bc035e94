-- ===== src/Common/CheckAndDelete.antt =====
-- internal/common/discord.go: CheckAndDelete, which forgets a user whom Discord does not know.
use chremoas_ng.Base.{ℕ, Bool, true, false, Option, none, some, ◌==◌, nat_eq, if◌then◌else◌}
use chremoas_ng.Base.Text.{Str}
use chremoas_ng.Storage.Users.{delete_discord_user}
use chremoas_ng.World.{Env, M, pure, check, Error, rest}

-- The status code of an answer of Discord's REST interface.
unfoldable pub status_of : Error → Option ℕ
status_of (rest status) = some status
status_of _ = none

-- Whether Discord says that it does not know whom or what a request is about.
unfoldable pub is_not_found : Error → Bool
unfolding status_of
is_not_found e = elim (status_of e) [ none ↦ false | some status ↦ status == 404 ]

-- Whether the error has been dealt with, and how the deletion failed.
unfoldable pub check_and_delete : Env → Str → Error → M (Bool × Option Error)
unfolding is_not_found
check_and_delete env discord_id e =
    if is_not_found e
    then check (delete_discord_user env discord_id) (λ d. pure (true, some d))
        (λ _. pure (true, none))
    else pure (false, none)
