-- ===== src/Common/Chunks/Lossless.antt =====
-- What internal/common/chunked_message.go delivers.
use mathlib.Core.Path.{subst}
use mathlib.Core.List.{append-nil, append_assoc}
use chremoas_ng.Base.{
  ℕ, ◌+◌, ◌≤◌, ◌≡◌, refl, Bool, true, false, List, [], ◌∷◌, ◌++◌, ltb, length, All, length-append,
  ltb→lt, ltb→le, arith, Bool-cases, Option-cases, ◌⊎◌, inl, inr,
}
use chremoas_ng.Base.Text.{Str}
use chremoas_ng.Common.Embed.{Embed, set_title, set_description, cut}
use chremoas_ng.Common.Session.{send_embed}
use chremoas_ng.Common.Chunks.Send.{line, chunk_loop, chunk_embed, last_embed, send_chunked_message}
use chremoas_ng.World.{World, Env, Error, Run, M, pure, check, tick, done, Result, ok, err}

-- The lines, each ended by a newline.
abbrev pub joined : List Str → Str
joined [] = []
joined (m ∷ message) = line m ++ joined message

-- The descriptions of embeds, one after the other.
abbrev pub sent_text : List (Str × Embed) → Str
sent_text [] = []
sent_text ((c, e) ∷ sent) = e.description ++ sent_text sent

sent_text-append :
    (xs ys : List (Str × Embed)) → sent_text (xs ++ ys) ≡ sent_text xs ++ sent_text ys
sent_text-append [] ys = refl
sent_text-append ((c, e) ∷ xs) ys = simp (sent_text-append xs ys, append_assoc)

-- A run ends without a panic; what was sent and what remains make up a text, and nothing remains
-- unless it ends with an error.
pub record Delivers (run : Run (Result Unit)) (text : Str) : Type 0 where
  pub result : Result Unit
  pub world : World
  pub rest : Str
  pub ends : run ≡ done result world
  pub in_order : sent_text world.sent ++ rest ≡ text
  pub complete : (rest ≡ []) ⊎ ((e : Error) × (result ≡ err e))

-- A text within the limit is not cut.
cut-eq_of_le : (n : ℕ) (s : Str) → length s ≤ n → cut n s ≡ s
cut-eq_of_le n s h = elim (Bool-cases (ltb n (length s))) [
  | inl longer ↦ absurd (omega (arith, ltb→lt _ _ longer))
  | inr fits ↦ rw fits
]

module _ (env : Env) (channel title : Str) where
  -- An embed whose description is the next part of the text, and then a run for the others.
  send_then-Delivers :
      (e : Embed) (k : M (Result Unit)) (w : World) (d pending : Str)
      → e.description ≡ d
      → ((w' : World)
          → sent_text w'.sent ≡ sent_text w.sent ++ d
          → Delivers (k w') (sent_text w'.sent ++ pending))
      → Delivers
          (check (send_embed env channel e) (λ f. pure (err f)) (λ _. k) w)
          (sent_text w.sent ++ (d ++ pending))
  unfolding send_embed check pure
  send_then-Delivers e k w d pending same next = elim (Option-cases (env.send_fault w.clock)) [
    | inr (f, failed) ↦ record {
      result = err f;
      world = tick w;
      rest = d ++ pending;
      ends = rw (failed, check, pure);
      in_order = refl;
      complete = inr (f, refl);
    }
    | inl sent ↦
        let w' : World = record (tick w) { sent = w.sent ++ (channel, e) ∷ [] } in
        let text : sent_text w'.sent ≡ sent_text w.sent ++ d =
          rw (sent_text-append w.sent ((channel, e) ∷ []), append-nil, same) in
        rw (sent, check)
          (rw (← append_assoc) (subst (λ s. Delivers (k w') (s ++ pending)) text (next w' text)))
  ]

  finished-Delivers : (w : World) → Delivers (pure (ok tt) w) (sent_text w.sent ++ [])
  unfolding pure
  finished-Delivers w = record {
    result = ok tt;
    world = w;
    rest = [];
    ends = refl;
    in_order = refl;
    complete = inl refl;
  }

  last_embed-description :
      (first : Bool) (buffer : Str)
      → length buffer ≤ 2048
      → (last_embed title first buffer).description ≡ buffer
  unfolding last_embed set_description set_title
  last_embed-description true buffer fits = cut-eq_of_le 2048 buffer fits
  last_embed-description false buffer fits = cut-eq_of_le 2048 buffer fits

  chunk_embed-description :
      (first : Bool) (buffer : Str)
      → length buffer ≤ 2048
      → (chunk_embed title first buffer).description ≡ buffer
  unfolding chunk_embed set_description set_title
  chunk_embed-description first buffer fits = cut-eq_of_le 2048 buffer fits

  length-line : (m : Str) → length (line m) ≡ length m + 1
  length-line m = omega (arith, length-append m (10 ∷ []))

  chunk_loop-Delivers :
      (message : List Str) (buffer : Str) (first : Bool) (w : World)
      → All (λ m. length m ≤ 2046) message
      → length buffer ≤ 2048
      → Delivers
          (chunk_loop env channel title message buffer first w)
          (sent_text w.sent ++ (buffer ++ joined message))
  unfolding chunk_loop
  chunk_loop-Delivers [] buffer first w h fits =
      send_then-Delivers (last_embed title first buffer) (pure (ok tt)) w buffer []
        (last_embed-description first buffer fits) (λ w' _. finished-Delivers w')
  chunk_loop-Delivers (m ∷ message) buffer first w h fits =
      elim (Bool-cases (ltb 2048 (length buffer + length m + 2))) [
        | inl full ↦ rw full (
            send_then-Delivers (chunk_embed title first buffer)
              (chunk_loop env channel title message (line m) false) w buffer
              (line m ++ joined message) (chunk_embed-description first buffer fits)
              (λ w' _.
                chunk_loop-Delivers message (line m) false w' h.1 (omega (arith, length-line m))))
        | inr room ↦ rw room (
            rw (← append_assoc buffer (line m) (joined message)) (
              chunk_loop-Delivers message (buffer ++ line m) first w h.1
                (omega (arith, ltb→le _ _ room, length-append buffer (line m), length-line m))))
      ]

  -- Of lines that fit into an embed none is lost, cut or reordered, and sending them never panics:
  -- the descriptions sent are the lines with their newlines, up to the embed whose sending fails.
  pub send_chunked_message-Delivers :
      (message : List Str) (w : World)
      → All (λ m. length m ≤ 2046) message
      → Delivers
          (send_chunked_message env channel title message w)
          (sent_text w.sent ++ joined message)
  unfolding send_chunked_message
  send_chunked_message-Delivers message w h = chunk_loop-Delivers message [] true w h (omega arith)
