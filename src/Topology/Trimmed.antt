-- ===== src/Topology/Trimmed.antt =====
-- runtime/go/internal/topology/engine.go: theorems on `trimTraces`.
use node_flow.Prelude.{
  ℕ, zero, suc, ◌-◌, ◌≤◌, ◌≡◌, refl, ◌∙◌, inl, inr, true, false, ◌||◌, List, [], ◌∷◌, length, take,
  All, bytes_eq, bytes_eq_self, bytes_eq_iff, has, remove-AreNamed, Entries, remove-Entries, keys,
  keys-Distinct, Distinct, remove_all, length-remove_all, Bool-cases, leb, arith,
}
use node_flow.Bytes.{Bytes}
use node_flow.Topology.{Host, Trace, Engine}
use node_flow.Topology.Trim.{insert_by_age, by_age, forget_spans, forget_traces, trim_traces}
use node_flow.Topology.Sound.{Limits, IsTrace, IsEngine}

pub take-Distinct : (n : ℕ) (ks : List Bytes) → Distinct ks → Distinct (take n ks)
take-Distinct zero ks d = tt
take-Distinct (suc n) [] d = tt
take-Distinct (suc n) (k ∷ ks) (apart, d) = (has-take k n ks apart, take-Distinct n ks d)
  where
    has-take : (k : Bytes) (n : ℕ) (ks : List Bytes) → has k ks ≡ false → has k (take n ks) ≡ false
    has-take k zero ks e = refl
    has-take k (suc n) [] e = refl
    has-take k (suc n) (j ∷ ks) e = ground (arith, has-take k n ks)

-- A property of all members of a list holds of those it begins with.
take-All : (P : Bytes → Type 0) (n : ℕ) (ks : List Bytes) → All P ks → All P (take n ks)
take-All P zero ks all = tt
take-All P (suc n) [] all = tt
take-All P (suc n) (k ∷ ks) (p, all) = (p, take-All P n ks all)

length-take_enough : (n : ℕ) (ks : List Bytes) → n ≤ length ks → length (take n ks) ≡ n
length-take_enough zero ks e = refl
length-take_enough (suc n) [] e = absurd (omega arith)
length-take_enough (suc n) (k ∷ ks) e = omega (arith, length-take_enough n ks (omega arith))

All-has :
    (ks js : List Bytes)
    → ((k : Bytes) → has k ks ≡ true → has k js ≡ true)
    → All (λ k. has k js ≡ true) ks
All-has [] js f = tt
All-has (k ∷ ks) js f =
    (f k (ground (arith, bytes_eq_self k)), All-has ks js (λ j e. f j (ground arith)))

module _ (h : Host) where
  abbrev pub trace_ids : List (Trace h) → List Bytes
  trace_ids [] = []
  trace_ids (t ∷ ts) = t.trace_id ∷ trace_ids ts

  trace_ids-take : (n : ℕ) (ts : List (Trace h)) → trace_ids (take n ts) ≡ take n (trace_ids ts)
  trace_ids-take zero ts = refl
  trace_ids-take (suc n) [] = refl
  trace_ids-take (suc n) (t ∷ ts) = rw (trace_ids-take n ts) refl

  length-trace_ids : (ts : List (Trace h)) → length (trace_ids ts) ≡ length ts
  length-trace_ids [] = refl
  length-trace_ids (t ∷ ts) = rw (length-trace_ids ts) refl

  has-insert_by_age :
      (k : Bytes) (t : Trace h) (ts : List (Trace h))
      → has k (trace_ids (insert_by_age h t ts)) ≡ (bytes_eq t.trace_id k || has k (trace_ids ts))
  unfolding insert_by_age
  has-insert_by_age k t [] = refl
  has-insert_by_age k t (u ∷ ts) = elim (Bool-cases (leb t.last_updated_at u.last_updated_at)) [
    | inl first ↦ rw (insert_by_age, first) refl
    | inr later ↦ rw (insert_by_age, later) (ground (arith, has-insert_by_age k t ts))
  ]

  insert_by_age-Distinct :
      (t : Trace h) (ts : List (Trace h))
      → has t.trace_id (trace_ids ts) ≡ false
      → Distinct (trace_ids ts)
      → Distinct (trace_ids (insert_by_age h t ts))
  unfolding insert_by_age
  insert_by_age-Distinct t [] apart d = (refl, tt)
  insert_by_age-Distinct t (u ∷ ts) apart (apart2, d) =
      elim (Bool-cases (leb t.last_updated_at u.last_updated_at)) [
        | inl first ↦ rw (insert_by_age, first) (apart, (apart2, d))
        | inr later ↦
            rw (insert_by_age, later)
              (
                rw (has-insert_by_age u.trace_id t ts) (
                    ground (
                      arith,
                      bytes_eq_iff t.trace_id u.trace_id,
                      bytes_eq_iff u.trace_id t.trace_id,
                    )),
                insert_by_age-Distinct t ts (ground arith) d,
              )
      ]

  length-insert_by_age :
      (t : Trace h) (ts : List (Trace h)) → length (insert_by_age h t ts) ≡ suc (length ts)
  unfolding insert_by_age
  length-insert_by_age t [] = refl
  length-insert_by_age t (u ∷ ts) = elim (Bool-cases (leb t.last_updated_at u.last_updated_at)) [
    | inl first ↦ rw (insert_by_age, first) refl
    | inr later ↦ rw (insert_by_age, later, length-insert_by_age t ts) refl
  ]

  length-by_age : (m : List (Bytes × Trace h)) → length (by_age h m) ≡ length m
  unfolding by_age
  length-by_age [] = refl
  length-by_age ((k, t) ∷ m) =
      rw (by_age, length-insert_by_age t (by_age h m), length-by_age m) refl

  forget_spans-traces :
      (id : Bytes) (ids : List Bytes) (e : Engine h) → (forget_spans h id ids e).traces ≡ e.traces
  unfolding forget_spans
  forget_spans-traces id [] e = refl
  forget_spans-traces id (j ∷ ids) e = rw (forget_spans, forget_spans-traces id ids _) refl

  forget_traces-traces :
      (ts : List (Trace h)) (e : Engine h)
      → (forget_traces h ts e).traces ≡ remove_all (trace_ids ts) e.traces
  unfolding forget_traces
  forget_traces-traces [] e = refl
  forget_traces-traces (t ∷ ts) e =
      rw (forget_traces, forget_traces-traces ts _, forget_spans-traces t.trace_id t.span_order _)
        refl

module _ (h : Host) (limits : Limits) where
  has-by_age :
      (k : Bytes) (m : List (Bytes × Trace h))
      → Entries (IsTrace h limits) m
      → has k (trace_ids h (by_age h m)) ≡ has k (keys m)
  unfolding by_age
  has-by_age k [] all = refl
  has-by_age k ((j, t) ∷ m) (here, all) =
      rw (by_age, has-insert_by_age h k t (by_age h m), has-by_age k m all, here) refl

  by_age-Distinct :
      (m : List (Bytes × Trace h))
      → Entries (IsTrace h limits) m
      → Distinct (keys m)
      → Distinct (trace_ids h (by_age h m))
  unfolding by_age
  by_age-Distinct [] all d = tt
  by_age-Distinct ((j, t) ∷ m) (here, all) (apart, d) =
      insert_by_age-Distinct h t (by_age h m) (rw (has-by_age t.trace_id m all, here) apart)
        (by_age-Distinct m all d)

  forget_spans-IsEngine :
      (id : Bytes) (ids : List Bytes) (e : Engine h)
      → IsEngine h limits e
      → IsEngine h limits (forget_spans h id ids e)
  unfolding forget_spans
  forget_spans-IsEngine id [] e fine = fine
  forget_spans-IsEngine id (j ∷ ids) e fine = forget_spans-IsEngine id ids _ (record {
    trace_limit = fine.trace_limit;
    sample_limit = fine.sample_limit;
    path_limit = fine.path_limit;
    one_trace_each = fine.one_trace_each;
    traces = fine.traces;
    nodes = fine.nodes;
    edges = fine.edges;
    paths = fine.paths;
    paths_le = fine.paths_le;
  })

  forget_traces-IsEngine :
      (ts : List (Trace h)) (e : Engine h)
      → IsEngine h limits e
      → IsEngine h limits (forget_traces h ts e)
  unfolding forget_traces
  forget_traces-IsEngine [] e fine = fine
  forget_traces-IsEngine (t ∷ ts) e fine = forget_traces-IsEngine ts _ (
      forget_spans-IsEngine t.trace_id t.span_order _ (record {
        trace_limit = fine.trace_limit;
        sample_limit = fine.sample_limit;
        path_limit = fine.path_limit;
        one_trace_each = remove-AreNamed t.trace_id e.traces fine.one_trace_each;
        traces = remove-Entries (IsTrace h limits) t.trace_id e.traces fine.traces;
        nodes = fine.nodes;
        edges = fine.edges;
        paths = fine.paths;
        paths_le = fine.paths_le;
      }))

  pub trim_traces-IsEngine :
      (e : Engine h) → IsEngine h limits e → IsEngine h limits (trim_traces h e)
  unfolding trim_traces
  trim_traces-IsEngine e fine = forget_traces-IsEngine _ e fine

  -- Trimming a sound engine leaves no more traces than the limit.
  pub length-trim_traces :
      (e : Engine h) → IsEngine h limits e → length ((trim_traces h e).traces) ≤ limits.traces
  unfolding trim_traces
  length-trim_traces e fine =
      let old = take (length e.traces - e.max_recent_traces) (trace_ids h (by_age h e.traces)) in
      let removed =
        length-remove_all old e.traces
          (take-Distinct _ (trace_ids h (by_age h e.traces))
            (by_age-Distinct e.traces fine.traces (keys-Distinct e.traces fine.one_trace_each)))
          (take-All _ _ (trace_ids h (by_age h e.traces)) (
            All-has (trace_ids h (by_age h e.traces)) (keys e.traces)
              (λ k here. rw (has-by_age k e.traces fine.traces) at here))) in
      let count : length (trace_ids h (by_age h e.traces)) ≡ length e.traces =
        length-trace_ids h (by_age h e.traces) ∙ length-by_age h e.traces in
      rw
        (
          forget_traces-traces h (take (length e.traces - e.max_recent_traces) (by_age h e.traces))
              e,
          trace_ids-take h (length e.traces - e.max_recent_traces) (by_age h e.traces),
        )
        (omega (
          arith,
          removed,
          count,
          fine.trace_limit,
          length-take_enough (length e.traces - e.max_recent_traces)
              (trace_ids h (by_age h e.traces)) (omega (arith, count)),
        ))
