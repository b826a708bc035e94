-- ===== src/Consumers/Answers.antt =====
-- How a handler answers a delivery, and the loop over the deliveries of a channel.
use chremoas_ng.Base.{Bool, true, false, List, [], ◌∷◌}
use chremoas_ng.Base.Text.{Str}
use chremoas_ng.World.{M, pure, ◌>>=◌}

-- `d.Ack(false)` and `d.Reject(requeue)`; their errors are logged only.
pub data Answer : Type 0 where
  acked : Answer
  rejected : Bool → Answer

-- A delivery that is thrown away, and one that comes again.
abbrev pub dropped : M (List Answer)
dropped = pure (rejected false ∷ [])

abbrev pub requeued : M (List Answer)
requeued = pure (rejected true ∷ [])

abbrev pub acknowledged : M (List Answer)
acknowledged = pure (acked ∷ [])

-- `for d := range deliveries { … }`: the answers to each body that came before the channel closed.
unfoldable pub handle_messages : (Str → M (List Answer)) → List Str → M (List (List Answer))
handle_messages handle [] = pure []
handle_messages handle (body ∷ bodies) =
    handle body >>= λ answers. handle_messages handle bodies >>= λ rest. pure (answers ∷ rest)
