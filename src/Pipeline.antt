-- ===== src/Pipeline.antt =====
-- runtime/go/internal/pipeline/pipeline.go: how a flush of the dispatcher groups the pending items,
-- and how a worker brings one batch to an end.
pub mod Routing
pub mod Work
mod Items
pub mod Ends
pub mod Marks
mod Examples
use node_flow.Prelude.{
  ℕ, zero, suc, ◌+◌, ◌-◌, ◌*◌, ◌%◌, ◌^◌, Bool, true, false, not, ◌&&◌, ◌||◌, Option, none, some,
  List, [], ◌∷◌, ◌++◌, map, length, ltb, leb, ◌==◌, bytes_eq, if◌then◌else◌, Result, ok, err,
  bit_xor,
}
use node_flow.Bytes.{Bytes}
use node_flow.Telemetry.{Envelope, event_count}
use node_flow.Wal.Format.{Record}

module _ {S R : Type 0} where
  unfoldable pub service_key : Envelope S R → Bytes
  service_key e = elim e.span_batch [
    | some b ↦ b.service_name
    | none ↦ elim e.runtime_metrics [ some m ↦ m.service_name | none ↦ [] ]
  ]

-- The loop of `workerIndex` over the bytes of the key, on a uint32.
unfoldable pub service_hash : ℕ → Bytes → ℕ
service_hash hash [] = hash
service_hash hash (b ∷ bs) = service_hash (bit_xor hash b * 16777619 % 2 ^ 32) bs

unfoldable pub worker_index : Bytes → ℕ → ℕ
worker_index key workers = service_hash 2166136261 key % (workers % 2 ^ 32)

-- `item`: the channel of the waiter, if there is one.
pub record Item (S R : Type 0) : Type 0 where
  pub envelope : Envelope S R
  pub channel : Option ℕ
  pub stored : Option (Record (Envelope S R))

abbrev pub Batches : Type 0 → Type 0 → Type 0
Batches S R = List (Bytes × List (Item S R))

module _ {S R : Type 0} where
  -- The batches of one worker, in the order in which their services first occur.
  unfoldable pub put_item : Bytes → Item S R → Batches S R → Batches S R
  put_item key i [] = (key, i ∷ []) ∷ []
  put_item key i ((k, is) ∷ rest) =
      let later = put_item key i rest in
      if bytes_eq k key then (k, is ++ (i ∷ [])) ∷ rest else (k, is) ∷ later

  -- The loop of `flush` over the pending items; `groups w` are the batches of the worker `w`.
  unfoldable pub group_items : ℕ → List (Item S R) → (ℕ → Batches S R) → ℕ → Batches S R
  group_items workers [] groups = groups
  group_items workers (i ∷ is) groups =
      let key = service_key i.envelope in
      group_items workers is
        (λ w. if w == worker_index key workers then put_item key i (groups w) else groups w)

  -- The batches that `flush` makes for the worker `w`; their send, or their end where the context is
  -- done, is left out.
  unfoldable pub flush_to : ℕ → List (Item S R) → ℕ → Batches S R
  flush_to workers pending w = group_items workers pending (λ v. []) w

  unfoldable pub batch_event_count : List (Item S R) → ℕ
  batch_event_count [] = 0
  batch_event_count (i ∷ is) = event_count i.envelope + batch_event_count is

  unfoldable pub durable_records : List (Item S R) → List (Record (Envelope S R))
  durable_records [] = []
  durable_records (i ∷ is) = elim i.stored [
    | none ↦ durable_records is
    | some r ↦ r ∷ durable_records is
  ]

  unfoldable pub retry_exhausted : ℕ → List (Item S R) → Bool
  retry_exhausted max_attempts [] = false
  retry_exhausted max_attempts (i ∷ is) = elim i.stored [
    | none ↦ retry_exhausted max_attempts is
    | some r ↦ leb max_attempts (r.attempts + 1) || retry_exhausted max_attempts is
  ]
