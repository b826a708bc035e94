-- ===== src/Tests/CommandExamples.antt =====
-- The theorems on refused commands, applied to the concrete data, where no permission that a command
-- asks for exists.
use chremoas_ng.Base.{[], ◌∷◌}
use chremoas_ng.Base.Text.{Str}
use chremoas_ng.World.{World}
use chremoas_ng.Tests.Data.{member_db, world_of}

abbrev world : World
world = world_of member_db

abbrev author_5 : Str
author_5 = b'5' ∷ []
