-- ===== src/Telemetry/Validate/Clean.antt =====
-- runtime/go/internal/telemetry/validate.go: theorems on `ValidateAndSanitize`.
use node_flow.Prelude.{
  ◌≡◌, refl, subst, ◌⊎◌, inl, inr, Bool, true, false, not, ◌||◌, Option, none, some, All, length,
  null, bytes_eq, ltb, Bool-cases, Result-cases, ok, ok-injective, arith,
}
use node_flow.Telemetry.{SpanBatch, RuntimeMetrics, Envelope}
use node_flow.Telemetry.Validate.{
  Limits, Checks, Gauges, validate_span_batch, validate_runtime, finite_non_negative,
  protocol_version, validate_payload, validate_and_sanitize,
}
use node_flow.Topology.{Host, Span}
use node_flow.Telemetry.Validate.Spans.{IsClean, or_first, validate_span_batch-IsClean}

module _ {h : Host} (c : Checks h) (limits : Limits) where
  none_failed :
      (p q r s : Bool)
      → (not p || not q || not r || not s) ≡ false
      → (p ≡ true) × (q ≡ true) × (r ≡ true) × (s ≡ true)
  none_failed true true true true e = (refl, refl, refl, refl)
  none_failed true true true false e = absurd (ground arith)
  none_failed true true false s e = absurd (ground arith)
  none_failed true false r s e = absurd (ground arith)
  none_failed false q r s e = absurd (ground arith)

  -- Runtime metrics that may be taken in.
  pub record IsMeasured (m : RuntimeMetrics (Gauges h)) : Type 0 where
    pub service : null m.service_name ≡ false
    pub timestamp : finite_non_negative c m.gauges.timestamp ≡ true
    pub cpu : finite_non_negative c m.gauges.cpu_percent ≡ true
    pub utilization : finite_non_negative c m.gauges.event_loop_utilization ≡ true
    pub uptime : finite_non_negative c m.gauges.uptime_seconds ≡ true
    pub utilization_le : h.lt_f (h.of_nat 100) m.gauges.event_loop_utilization ≡ false

  validate_runtime-IsMeasured :
      (metrics m : RuntimeMetrics (Gauges h))
      → validate_runtime c limits metrics ≡ ok m
      → IsMeasured m
  unfolding validate_runtime
  validate_runtime-IsMeasured metrics m e =
      let g = metrics.gauges in
      elim (Bool-cases (
        null (h.trim_space metrics.service_name)
        || ltb limits.max_identifier_size (length (h.trim_space metrics.service_name)))) [
          | inl bad ↦ absurd (cc (rw (validate_runtime, bad) at e))
          | inr name ↦
              elim (Bool-cases (
                not (finite_non_negative c g.timestamp)
                || not (finite_non_negative c g.cpu_percent)
                || not (finite_non_negative c g.event_loop_utilization)
                || not (finite_non_negative c g.uptime_seconds))) [
                  | inl bad ↦ absurd (cc (rw (validate_runtime, name, bad) at e))
                  | inr finite ↦
                      elim (Bool-cases (h.lt_f (h.of_nat 100) g.event_loop_utilization)) [
                        | inl bad ↦ absurd (cc (rw (validate_runtime, name, finite, bad) at e))
                        | inr low ↦
                            let good = none_failed _ _ _ _ finite in
                            subst (λ n. IsMeasured n)
                              (ok-injective _ m (rw (validate_runtime, name, finite, low) at e))
                              (record {
                                service = or_first c limits _ _ name;
                                timestamp = good.0;
                                cpu = good.1;
                                utilization = good.2;
                                uptime = good.3;
                                utilization_le = low;
                              })
                      ]
                ]
        ]

  -- An envelope with spans alone, which are clean, of a named service.
  pub record IsSpans (e : Envelope (Span h) (Gauges h)) : Type 0 where
    pub batch : SpanBatch (Span h)
    pub there : e.span_batch ≡ some batch
    pub alone : e.runtime_metrics ≡ none
    pub service : null batch.service_name ≡ false
    pub spans : All (IsClean c limits) batch.spans

  -- An envelope with runtime metrics alone, which are measured.
  pub record IsRuntime (e : Envelope (Span h) (Gauges h)) : Type 0 where
    pub metrics : RuntimeMetrics (Gauges h)
    pub there : e.runtime_metrics ≡ some metrics
    pub alone : e.span_batch ≡ none
    pub measured : IsMeasured metrics

  -- An envelope that may be taken in has one payload of the two.
  abbrev pub IsAccepted : Envelope (Span h) (Gauges h) → Type 0
  IsAccepted e = IsSpans e ⊎ IsRuntime e

  payload-IsAccepted :
      (e f : Envelope (Span h) (Gauges h)) (batch : Option (SpanBatch (Span h)))
      (metrics : Option (RuntimeMetrics (Gauges h)))
      → e.span_batch ≡ batch
      → e.runtime_metrics ≡ metrics
      → validate_payload c limits e batch metrics ≡ ok f
      → IsAccepted f
  unfolding validate_payload
  payload-IsAccepted e f none none p q same = absurd (cc same)
  payload-IsAccepted e f (some batch) (some m) p q same = absurd (cc same)
  payload-IsAccepted e f none (some m) p q same =
      elim (Result-cases (validate_runtime c limits m)) [
        | inl (x, bad) ↦ absurd (cc (rw (validate_payload, bad) at same))
        | inr (n, good) ↦
            subst (λ g. IsAccepted g) (ok-injective _ f (rw (validate_payload, good) at same))
              (inr (record {
                metrics = n;
                there = refl;
                alone = p;
                measured = validate_runtime-IsMeasured m n good;
              }))
      ]
  payload-IsAccepted e f (some batch) none p q same =
      elim (Result-cases (validate_span_batch c limits batch)) [
        | inl (x, bad) ↦ absurd (cc (rw (validate_payload, bad) at same))
        | inr (d, good) ↦
            let passed = validate_span_batch-IsClean c limits batch d good in
            subst (λ g. IsAccepted g) (ok-injective _ f (rw (validate_payload, good) at same))
              (inl (record {
                batch = d;
                there = refl;
                alone = q;
                service = passed.0;
                spans = passed.1;
              }))
      ]

  -- An envelope that passes has one of two payloads alone. A batch of spans has the name of a service,
  -- and each of its spans has a trace and an identifier, is not its own parent, is of a known kind, and
  -- has attributes with filled keys within their size, none of which is sensitive, and with values that
  -- are text, finite numbers or Booleans. Runtime metrics have the name of a service, a timestamp, a
  -- CPU share, a utilization and an uptime that are finite and not negative, and a utilization that is
  -- not above 100.
  pub validate_and_sanitize-IsAccepted :
      (e f : Envelope (Span h) (Gauges h)) → validate_and_sanitize c limits e ≡ ok f → IsAccepted f
  unfolding validate_and_sanitize
  validate_and_sanitize-IsAccepted e f same =
      elim (Bool-cases (bytes_eq e.protocol_version protocol_version)) [
        | inr other_version ↦ absurd (cc (rw (validate_and_sanitize, other_version) at same))
        | inl version ↦
            payload-IsAccepted e f e.span_batch e.runtime_metrics refl refl
              (rw (validate_and_sanitize, version) at same)
      ]
