-- ===== src/Pipeline/Lane.antt =====
-- internal/pipeline/pipeline.go: what spans and metrics share, a bounded channel and the batch that
-- `Run` collects from it. `sent` and `calls` are history, which the source does not keep: the values
-- that entered the channel, and the batches handed to the writer with whether it accepted them.
pub mod Laws
use apm2go.Base.{
  ℕ, ◌+◌, List, [], ◌∷◌, ◌++◌, Bool, true, false, if◌then◌else◌, ltb, leb, length, is_empty,
}

pub record Lane {ℓ} (A : Type ℓ) : Type ℓ where
  pub capacity : ℕ
  pub queue : List A
  pub batch : List A
  pub sent : List A
  pub calls : List (List A × Bool)

module _ {ℓ} {A : Type ℓ} where
  unfoldable pub new_lane : ℕ → Lane A
  new_lane capacity = record { capacity = capacity; queue = []; batch = []; sent = []; calls = [] }

  abbrev pub has_room : Lane A → Bool
  has_room l = ltb (length l.queue) l.capacity

  -- `case p.queue <- span`, where it is ready.
  unfoldable pub send : A → Lane A → Lane A
  send a l = record l { queue = l.queue ++ a ∷ []; sent = l.sent ++ a ∷ [] }

  -- `flush`: an empty batch is not written; a written one is given up whatever the writer says.
  unfoldable pub flush : Bool → Lane A → Lane A
  flush ok l =
      if is_empty l.batch then l else record l { batch = []; calls = l.calls ++ (l.batch, ok) ∷ [] }

  -- `case span := <-p.queue`, at what the channel holds.
  abbrev pub take_next : List A → Lane A → Lane A
  take_next [] l = l
  take_next (a ∷ rest) l = record l { queue = rest; batch = l.batch ++ a ∷ [] }

  -- Spans or metrics that the writer took, and batches that it refused.
  abbrev pub written : List (List A × Bool) → ℕ
  written [] = 0
  written ((b, ok) ∷ cs) = let rest = written cs in if ok then length b + rest else rest
