-- ===== src/Topology/Ancestors.antt =====
-- runtime/go/internal/topology/engine.go: theorems on the walks of `findNearestParentNode` and
-- `findNearestTraceParent`.
use node_flow.Prelude.{
  ℕ, zero, suc, ◌+◌, ◌≤◌, ◌<◌, ◌≡◌, ◌∙◌, refl, ap, inl, inr, false, ◌||◌, some, List, [], ◌∷◌,
  length, null, bytes_eq_iff, Option, has, find, Entries, find-Entries, Bool-cases, Option-cases,
  if◌then◌else◌, arith,
}
use node_flow.Bytes.{Bytes}
use node_flow.Topology.{Host, Span, Trace, Engine}
use node_flow.Topology.Ingest.{Walk, ended, resolve_node, nearest_parent_node}
use node_flow.Topology.Paths.{is_kept, nearest_trace_parent}

module _ {ℓ} {V : Type ℓ} where
  -- The entries that a walk has not come by.
  unfoldable pub unvisited : List (Bytes × V) → List Bytes → ℕ
  unvisited [] visited = 0
  unvisited ((k, v) ∷ m) visited =
      let rest = unvisited m visited in if has k visited then rest else rest + 1

  unvisited_le : (m : List (Bytes × V)) (visited : List Bytes) → unvisited m visited ≤ length m
  unfolding unvisited
  unvisited_le [] visited = omega arith
  unvisited_le ((k, v) ∷ m) visited = ground (arith, unvisited_le m visited)

  unvisited_more :
      (id : Bytes) (m : List (Bytes × V)) (visited : List Bytes)
      → unvisited m (id ∷ visited) ≤ unvisited m visited
  unfolding unvisited
  unvisited_more id [] visited = omega arith
  unvisited_more id ((k, v) ∷ m) visited = ground (arith, unvisited_more id m visited)

  pub unvisited_visit :
      (id : Bytes) (w : V) (m : List (Bytes × V)) (visited : List Bytes)
      → find id m ≡ some w
      → has id visited ≡ false
      → unvisited m (id ∷ visited) < unvisited m visited
  unfolding unvisited find
  unvisited_visit id w [] visited e new = absurd (ground arith)
  unvisited_visit id w ((k, v) ∷ m) visited e new = ground (
    arith,
    bytes_eq_iff k id,
    bytes_eq_iff id k,
    unvisited_more id m visited,
    unvisited_visit id w m visited,
  )

-- A walk has an end: it is not stopped by its fuel.
abbrev pub Ends : {A : Type 0} → Walk A → Type 0
Ends {A} walk = (o : Option A) × (walk ≡ ended o)

module _ (h : Host) where
  nearest_trace_parent-Ends :
      (fuel : ℕ) (trace : Trace h) (kept : List (Span h)) (visited : List Bytes) (id : Bytes)
      → unvisited trace.spans visited < fuel
      → Ends (nearest_trace_parent h fuel trace kept visited id)
  unfolding nearest_trace_parent
  nearest_trace_parent-Ends zero trace kept visited id enough = absurd (omega arith)
  nearest_trace_parent-Ends (suc fuel) trace kept visited id enough =
      elim (Bool-cases (null id || has id visited)) [
        | inl over ↦ rw (nearest_trace_parent, over) (_, refl)
        | inr new ↦ elim (Bool-cases (is_kept h id kept)) [
          | inl here ↦ rw (nearest_trace_parent, new, here) (_, refl)
          | inr passed ↦ elim (Option-cases (find id trace.spans)) [
            | inl missing ↦ rw (nearest_trace_parent, new, passed, missing) (_, refl)
            | inr (parent, found) ↦
                rw (nearest_trace_parent, new, passed, found)
                  (nearest_trace_parent-Ends fuel trace kept (id ∷ visited) parent.parent_span_id (
                    omega
                      (arith, unvisited_visit id parent trace.spans visited found (ground arith))))
          ]
        ]
      ]

  nearest_parent_node-Ends :
      (fuel : ℕ) (e : Engine h) (trace : Trace h) (visited : List Bytes) (id : Bytes)
      → Entries (λ k (s : Span h). s.span_id ≡ k) trace.spans
      → unvisited trace.spans visited < fuel
      → Ends (nearest_parent_node h fuel e trace visited id)
  unfolding nearest_parent_node
  nearest_parent_node-Ends zero e trace visited id named enough = absurd (omega arith)
  nearest_parent_node-Ends (suc fuel) e trace visited id named enough =
      elim (Option-cases (find id trace.spans)) [
        | inl missing ↦ rw (nearest_parent_node, missing) (_, refl)
        | inr (current, found) ↦
            let same =
              find-Entries (λ k (s : Span h). s.span_id ≡ k) id current trace.spans named found in
            elim (Bool-cases (has current.span_id visited)) [
              | inl seen ↦ rw (nearest_parent_node, found, seen) (_, refl)
              | inr new ↦ elim (Option-cases (resolve_node h e current)) [
                | inr (node, resolved) ↦ rw (nearest_parent_node, found, new, resolved) (_, refl)
                | inl passed ↦ elim (Bool-cases (null current.parent_span_id)) [
                  | inl top ↦ rw (nearest_parent_node, found, new, passed, top) (_, refl)
                  | inr up ↦
                      rw (nearest_parent_node, found, new, passed, up)
                        (nearest_parent_node-Ends fuel e trace (current.span_id ∷ visited)
                          current.parent_span_id named
                          (omega (
                            arith,
                            unvisited_visit current.span_id current trace.spans visited
                                (ap (λ k. find k trace.spans) same ∙ found) new,
                          )))
                ]
              ]
            ]
      ]

  -- The walks to the nearest kept span above, and to the nearest node above, come to an end by
  -- themselves in one round more than the trace has spans, whatever parents its spans name, cycles
  -- included: their fuel does not run out. For the second, each span of the trace stands under its
  -- identifier.
  pub parents_end :
      (e : Engine h) (trace : Trace h) (kept : List (Span h)) (id : Bytes)
      → Entries (λ k (s : Span h). s.span_id ≡ k) trace.spans
      → Ends (nearest_trace_parent h (length trace.spans + 1) trace kept [] id)
        × Ends (nearest_parent_node h (length trace.spans + 1) e trace [] id)
  parents_end e trace kept id named =
      let all = unvisited_le trace.spans [] in
      (
        nearest_trace_parent-Ends (length trace.spans + 1) trace kept [] id (omega (arith, all)),
        nearest_parent_node-Ends (length trace.spans + 1) e trace [] id named (omega (arith, all)),
      )
