-- ===== src/EsiPoller/Poll.antt =====
-- internal/esi-poller/esi-poller.go: Poll.
use chremoas_ng.Common.StringSets.{StringSets}
use chremoas_ng.World.{Env, M, ◌>>=◌, pure}
use chremoas_ng.EsiPoller.Roles.{sync_roles}
use chremoas_ng.EsiPoller.Alliances.{update_alliances}
use chremoas_ng.EsiPoller.Corporations.{update_corporations}
use chremoas_ng.EsiPoller.Characters.{update_characters}

-- One poll. What a step reports is only logged: the next step follows an error too.
unfoldable pub poll : Env → StringSets → M Unit
poll env lib = sync_roles env >>= λ _. update_alliances env >>= λ _.
    update_corporations env lib >>= λ _. update_characters env lib >>= λ _. pure tt
