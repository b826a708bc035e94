-- ===== src/Common/Chunks/Send.antt =====
-- internal/common/chunked_message.go: a long list of lines is sent as several embeds.
use chremoas_ng.Base.{◌+◌, Bool, true, false, List, [], ◌∷◌, ◌++◌, ltb, length, if◌then◌else◌}
use chremoas_ng.Base.Text.{Str, lit}
use chremoas_ng.Common.Embed.{Embed, new_embed, set_title, set_description, embed_limit_description}
use chremoas_ng.Common.Session.{send_embed}
use chremoas_ng.World.{Env, M, pure, check, Result, ok, err}

-- The embed for a full buffer: its title says whether it is the first.
unfoldable pub chunk_embed : Str → Bool → Str → Embed
chunk_embed title first buffer =
    set_description buffer (set_title (if first then title else title ++ lit " (cont)") new_embed)

-- The embed for what is left in the buffer.
unfoldable pub last_embed : Str → Bool → Str → Embed
last_embed title first buffer =
    set_description buffer (if first then set_title title new_embed else new_embed)

-- `fmt.Sprintf("%s\n", m)`
abbrev pub line : Str → Str
line m = m ++ 10 ∷ []

module _ (env : Env) (channel title : Str) where
  -- The loop over the lines and what follows it; the buffer and `firstChunk` are its variables.
  unfoldable pub chunk_loop : List Str → Str → Bool → M (Result Unit)
  unfolding chunk_embed last_embed
  chunk_loop [] buffer first =
      check (send_embed env channel (last_embed title first buffer)) (λ e. pure (err e))
        (λ _. pure (ok tt))
  chunk_loop (m ∷ message) buffer first =
      let flushed : M (Result Unit) =
        check (send_embed env channel (chunk_embed title first buffer)) (λ e. pure (err e))
          (λ _. chunk_loop message (line m) false) in
      let appended : M (Result Unit) = chunk_loop message (buffer ++ line m) first in
      if ltb embed_limit_description (length buffer + length m + 2) then flushed else appended

  unfoldable pub send_chunked_message : List Str → M (Result Unit)
  unfolding chunk_loop
  send_chunked_message message = chunk_loop message [] true
