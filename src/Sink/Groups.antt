-- ===== src/Sink/Groups.antt =====
-- runtime/go/internal/sink/topology.go: lemmas on the groups of `ConsumeBatch`.
use node_flow.Prelude.{
  ℕ, ◌+◌, ◌≡◌, refl, ◌⊎◌, inl, inr, Bool, true, false, ◌||◌, Option, none, some, List, [], ◌∷◌,
  ◌++◌, All, find, null, assign, arith, Entries, find-Entries, assign-Entries, Bool-cases,
  Option-cases,
}
use node_flow.Bytes.{Bytes}
use node_flow.Telemetry.{Envelope, SpanBatch, RuntimeMetrics}
use node_flow.Telemetry.Validate.{Gauges}
use node_flow.Topology
use node_flow.Topology.{Host, Span, Engine}
use node_flow.Topology.Batch.{register_application, update_runtime}
use node_flow.Topology.Whole.{metrics_came, application_came, answer}
use node_flow.Topology.State.{string_before}
use node_flow.Topology.State.RoundTrip.{IsStored}
use node_flow.Topology.State.Filed.{IsSpan}
use node_flow.Topology.State.Recovered.{answer-IsStored}
use node_flow.Sink.{
  SpanGroup, insert_key, sorted_keys, group_key, join_group, group_spans, group_runtimes,
}

module _ {ℓ} {V : Type 0} (P : Bytes → V → Type ℓ) where
  insert_key-Entries :
      (k : Bytes) (v : V) (m : List (Bytes × V))
      → P k v
      → Entries P m
      → Entries P (insert_key k v m)
  unfolding insert_key
  insert_key-Entries k v [] p all = (p, tt)
  insert_key-Entries k v ((j, w) ∷ m) p (q, all) = elim (Bool-cases (string_before j k)) [
    | inl later ↦ rw (insert_key, later) (q, insert_key-Entries k v m p all)
    | inr first ↦ rw (insert_key, first) (p, (q, all))
  ]

  pub sorted_keys-Entries : (m : List (Bytes × V)) → Entries P m → Entries P (sorted_keys m)
  unfolding sorted_keys
  sorted_keys-Entries [] all = tt
  sorted_keys-Entries ((k, v) ∷ m) (p, all) =
      insert_key-Entries k v (sorted_keys m) p (sorted_keys-Entries m all)

module _ {V : Type 0} where
  assign-filled : (k : Bytes) (v : V) (m : List (Bytes × V)) → null (assign k v m) ≡ false
  unfolding assign
  assign-filled k v [] = refl
  assign-filled k v ((j, w) ∷ m) = ground arith

  insert_key-filled : (k : Bytes) (v : V) (m : List (Bytes × V)) → null (insert_key k v m) ≡ false
  unfolding insert_key
  insert_key-filled k v [] = refl
  insert_key-filled k v ((j, w) ∷ m) = ground arith

  pub sorted_keys-filled : (m : List (Bytes × V)) → null m ≡ false → null (sorted_keys m) ≡ false
  unfolding sorted_keys
  sorted_keys-filled [] some_entry = some_entry
  sorted_keys-filled ((k, v) ∷ m) some_entry = insert_key-filled k v (sorted_keys m)

All-append : {A : Type 0} (P : A → Type 0) (xs ys : List A) → All P xs → All P ys → All P (xs ++ ys)
All-append P [] ys p q = q
All-append P (x ∷ xs) ys (here, p) q = (here, All-append P xs ys p q)

abbrev pub is_some : {A : Type 0} → Option A → Bool
is_some none = false
is_some (some a) = true

module _ {h : Host} where
  abbrev pub spans_of : Option (SpanBatch (Span h)) → List (Span h)
  spans_of none = []
  spans_of (some batch) = batch.spans

  -- The spans of an envelope have identifiers.
  abbrev pub IsNamed : Envelope (Span h) (Gauges h) → Type 0
  IsNamed e = All (IsSpan h) (spans_of e.span_batch)

  abbrev pub IsGroup : Bytes → SpanGroup h → Type 0
  IsGroup key group = All (IsSpan h) group.spans

  join_group-IsGroup :
      (index : ℕ) (batch : SpanBatch (Span h)) (groups : List (Bytes × SpanGroup h))
      → All (IsSpan h) batch.spans
      → Entries IsGroup groups
      → IsGroup (group_key batch) (join_group index batch (find (group_key batch) groups))
  unfolding join_group
  join_group-IsGroup index batch groups named all =
      elim (Option-cases (find (group_key batch) groups)) [
        | inl missing ↦ rw missing named
        | inr (group, found) ↦ rw found (
            All-append (IsSpan h) group.spans batch.spans
              (find-Entries IsGroup (group_key batch) group groups all found) named)
      ]

  pub group_spans-IsGroup :
      (index : ℕ) (es : List (Envelope (Span h) (Gauges h))) (groups : List (Bytes × SpanGroup h))
      → All IsNamed es
      → Entries IsGroup groups
      → Entries IsGroup (group_spans index es groups)
  unfolding group_spans
  group_spans-IsGroup index [] groups named all = all
  group_spans-IsGroup index (e ∷ es) groups (here, named) all = elim (Option-cases e.span_batch) [
    | inl missing ↦ rw (group_spans, missing) (group_spans-IsGroup (index + 1) es groups named all)
    | inr (batch, found) ↦
        rw (group_spans, found)
          (group_spans-IsGroup (index + 1) es _ named (
            assign-Entries IsGroup (group_key batch) _ groups
              (join_group-IsGroup index batch groups (rw found at here) all) all))
  ]

  -- Some envelope has a payload.
  abbrev pub carries : List (Envelope (Span h) (Gauges h)) → Bool
  carries [] = false
  carries (e ∷ es) = is_some e.span_batch || is_some e.runtime_metrics || carries es

  group_spans-filled :
      (index : ℕ) (es : List (Envelope (Span h) (Gauges h))) (groups : List (Bytes × SpanGroup h))
      → null groups ≡ false
      → null (group_spans index es groups) ≡ false
  unfolding group_spans
  group_spans-filled index [] groups some_group = some_group
  group_spans-filled index (e ∷ es) groups some_group = elim (Option-cases e.span_batch) [
    | inl missing ↦ rw (group_spans, missing) (group_spans-filled (index + 1) es groups some_group)
    | inr (batch, found) ↦
        rw (group_spans, found)
          (group_spans-filled (index + 1) es _ (assign-filled (group_key batch) _ groups))
  ]

  group_runtimes-filled :
      (es : List (Envelope (Span h) (Gauges h)))
      (runtimes : List (Bytes × RuntimeMetrics (Gauges h)))
      → null runtimes ≡ false
      → null (group_runtimes es runtimes) ≡ false
  unfolding group_runtimes
  group_runtimes-filled [] runtimes some_runtime = some_runtime
  group_runtimes-filled (e ∷ es) runtimes some_runtime = elim (Option-cases e.runtime_metrics) [
    | inl missing ↦ rw (group_runtimes, missing) (group_runtimes-filled es runtimes some_runtime)
    | inr (metrics, found) ↦
        rw (group_runtimes, found)
          (group_runtimes-filled es _ (assign-filled metrics.service_name _ runtimes))
  ]

  -- A payload is in one of the two groups.
  pub carries-filled :
      (index : ℕ) (es : List (Envelope (Span h) (Gauges h))) (groups : List (Bytes × SpanGroup h))
      (runtimes : List (Bytes × RuntimeMetrics (Gauges h)))
      → carries es ≡ true
      → (null (group_spans index es groups) ≡ false) ⊎ (null (group_runtimes es runtimes) ≡ false)
  unfolding group_spans group_runtimes
  carries-filled index [] groups runtimes some_payload = absurd (ground (arith, some_payload))
  carries-filled index (e ∷ es) groups runtimes some_payload = elim (Option-cases e.span_batch) [
    | inr (batch, found) ↦ inl (
        rw (group_spans, found)
          (group_spans-filled (index + 1) es _ (assign-filled (group_key batch) _ groups)))
    | inl missing ↦ elim (Option-cases e.runtime_metrics) [
      | inr (metrics, found) ↦ inr (
          rw (group_runtimes, found)
            (group_runtimes-filled es _ (assign-filled metrics.service_name _ runtimes)))
      | inl neither ↦
          rw (group_spans, group_runtimes, missing, neither)
            (carries-filled (index + 1) es groups runtimes (rw (missing, neither) at some_payload))
    ]
  ]

  pub metrics-IsStored :
      (metrics : Topology.RuntimeMetrics h) (e : Engine h)
      → IsStored h e
      → IsStored h (update_runtime h metrics e)
  unfolding answer
  metrics-IsStored metrics e stored = answer-IsStored h (metrics_came metrics) e tt stored

  pub application-IsStored :
      (name version : Bytes) (e : Engine h)
      → IsStored h e
      → IsStored h (register_application h name version e)
  unfolding answer
  application-IsStored name version e stored =
      answer-IsStored h (application_came name version) e tt stored
