-- ===== src/Common/Chunks/Limits.antt =====
-- No embed of internal/common/chunked_message.go is too long for Discord.
use chremoas_ng.Base.{
  ◌+◌, ◌≤◌, Bool, true, false, List, [], ◌∷◌, ◌++◌, ltb, length, All, Option-cases, Bool-cases, inl,
  inr,
}
use chremoas_ng.Base.Text.{Str}
use chremoas_ng.Common.Embed.{Embed, set_description, embed_limit_description}
use chremoas_ng.Common.EmbedLimits.{cut-le}
use chremoas_ng.Common.Session.{send_embed}
use chremoas_ng.Common.Chunks.Send.{line, chunk_loop, chunk_embed, last_embed, send_chunked_message}
use chremoas_ng.World.{World, Env, M, Result, pure, check, tick, ok, err}
use chremoas_ng.World.Keeps.{final}

-- A description that Discord accepts.
abbrev pub Fits : Str × Embed → Type 0
Fits m = length m.1.description ≤ embed_limit_description

All-snoc {ℓ κ} :
    {A : Type ℓ} (P : A → Type κ) (xs : List A) (x : A) → All P xs → P x → All P (xs ++ (x ∷ []))
All-snoc P [] x h hx = (hx, tt)
All-snoc P (y ∷ xs) x h hx = (h.0, All-snoc P xs x h.1 hx)

module _ (env : Env) (channel title : Str) where
  send_then-Fits :
      (e : Embed) (next : M (Result Unit)) (w : World)
      → Fits (channel, e)
      → All Fits w.sent
      → ((w' : World) → All Fits w'.sent → All Fits (final (next w')).sent)
      → All Fits (final (check (send_embed env channel e) (λ f. pure (err f)) (λ _. next) w)).sent
  unfolding check send_embed pure
  send_then-Fits e next w he h k = elim (Option-cases (env.send_fault w.clock)) [
    | inl sent ↦
        rw (check, send_embed, sent)
          (k (record (tick w) { sent = w.sent ++ ((channel, e) ∷ []) })
            (All-snoc Fits w.sent (channel, e) h he))
    | inr (f, failed) ↦ rw (check, send_embed, failed) h
  ]

  chunk_embed-Fits : (first : Bool) (buffer : Str) → Fits (channel, chunk_embed title first buffer)
  unfolding chunk_embed set_description
  chunk_embed-Fits first buffer = cut-le 2048 buffer

  last_embed-Fits : (first : Bool) (buffer : Str) → Fits (channel, last_embed title first buffer)
  unfolding last_embed set_description
  last_embed-Fits first buffer = cut-le 2048 buffer

  chunk_loop-Fits :
      (message : List Str) (buffer : Str) (first : Bool) (w : World)
      → All Fits w.sent
      → All Fits (final (chunk_loop env channel title message buffer first w)).sent
  unfolding chunk_loop pure
  chunk_loop-Fits [] buffer first w h =
      send_then-Fits (last_embed title first buffer) (pure (ok tt)) w (last_embed-Fits first buffer)
        h (λ w' h'. h')
  chunk_loop-Fits (m ∷ message) buffer first w h =
      elim (Bool-cases (ltb 2048 (length buffer + length m + 2))) [
        | inl full ↦ rw (full) (
            send_then-Fits (chunk_embed title first buffer)
              (chunk_loop env channel title message (line m) false) w
              (chunk_embed-Fits first buffer) h
              (λ w' h'. chunk_loop-Fits message (line m) false w' h'))
        | inr room ↦ rw (room) (chunk_loop-Fits message (buffer ++ line m) first w h)
      ]

  -- Whatever lines are given and whichever sending fails, if the descriptions sent before have at
  -- most 2048 bytes, all that have been sent in the end have.
  pub send_chunked_message-Fits :
      (message : List Str) (w : World)
      → All Fits w.sent
      → All Fits (final (send_chunked_message env channel title message w)).sent
  unfolding send_chunked_message
  send_chunked_message-Fits message w h = chunk_loop-Fits message [] true w h
