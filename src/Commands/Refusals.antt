-- ===== src/Commands/Refusals.antt =====
-- What the commands `!perms` and `!filter` do for an author whom CanPerform refuses.
use chremoas_ng.Base.{bytes_eq}
use chremoas_ng.Common.StringSets.{StringSets}
use chremoas_ng.World.{World}
use chremoas_ng.World.Keeps.{Keeps}
use chremoas_ng.Perms.Keeps as PermsKeeps
use chremoas_ng.Filters.Keeps as FiltersKeeps
