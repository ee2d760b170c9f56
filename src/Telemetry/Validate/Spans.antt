-- ===== src/Telemetry/Validate/Spans.antt =====
-- runtime/go/internal/telemetry/validate.go: theorems on `validateSpanBatch`.
use node_flow.Prelude.{
  ◌≡◌, refl, subst, inl, inr, Bool, true, false, not, ◌&&◌, ◌||◌, none, List, [], ◌∷◌, All, length,
  null, bytes_eq, has, ltb, Entries, Bool-cases, Option-cases, Result-cases, ok, ok-injective,
  arith,
}
use node_flow.Bytes.{Bytes}
use node_flow.Telemetry.{SpanBatch}
use node_flow.Telemetry.Validate.{
  Limits, Checks, valid_kinds, sensitive_attribute_key, check_value, check_attributes, check_fields,
  validate_span, validate_spans, validate_span_batch,
}
use node_flow.Topology.{Host, Value, nothing, text, number, boolean, other, Span}

module _ {h : Host} (c : Checks h) (limits : Limits) where
  abbrev pub is_allowed : Value h → Bool
  is_allowed nothing = false
  is_allowed (text s) = true
  is_allowed (number f) = not (c.is_nan f || c.is_inf f)
  is_allowed (boolean b) = true
  is_allowed (other o) = false

  -- An attribute that may be kept.
  pub record IsHarmless (key : Bytes) (value : Value h) : Type 0 where
    pub filled : null key ≡ false
    pub fits : ltb limits.max_identifier_size (length key) ≡ false
    pub open_key : sensitive_attribute_key c key ≡ false
    pub allowed : is_allowed value ≡ true

  -- A span that may be taken in.
  pub record IsClean (s : Span h) : Type 0 where
    pub traced : null s.trace_id ≡ false
    pub named : null s.span_id ≡ false
    pub not_own : (bytes_eq s.parent_span_id s.span_id && not (null s.parent_span_id)) ≡ false
    pub kind : has s.kind valid_kinds ≡ true
    pub attributes : Entries IsHarmless s.attributes

  check_value-allowed :
      (key : Bytes) (value v : Value h)
      → check_value c limits key value ≡ ok v
      → is_allowed v ≡ true
  unfolding check_value
  check_value-allowed key nothing v e = absurd (cc)
  check_value-allowed key (text s) v e =
      elim (Bool-cases (ltb limits.max_attribute_size (length s))) [
        | inl long ↦ absurd (cc (rw (check_value, long) at e))
        | inr fits ↦
            subst (λ w. is_allowed w ≡ true) (ok-injective _ v (rw (check_value, fits) at e)) refl
      ]
  check_value-allowed key (number f) v e = elim (Bool-cases (c.is_nan f || c.is_inf f)) [
    | inl odd ↦ absurd (cc (rw (check_value, odd) at e))
    | inr finite ↦
        subst (λ w. is_allowed w ≡ true) (ok-injective _ v (rw (check_value, finite) at e))
          (rw finite refl)
  ]
  check_value-allowed key (boolean b) v e =
      subst (λ w. is_allowed w ≡ true) (ok-injective (boolean b) v e) refl
  check_value-allowed key (other o) v e = absurd (cc)

  check_attributes-IsHarmless :
      (attributes kept : List (Bytes × Value h))
      → check_attributes c limits attributes ≡ ok kept
      → Entries IsHarmless kept
  unfolding check_attributes
  check_attributes-IsHarmless [] kept e =
      subst (λ m. Entries IsHarmless m) (ok-injective [] kept e) tt
  check_attributes-IsHarmless ((key, value) ∷ attributes) kept e =
      elim (Bool-cases (null key || ltb limits.max_identifier_size (length key))) [
        | inl bad ↦ absurd (cc (rw (check_attributes, bad) at e))
        | inr good ↦ elim (Bool-cases (sensitive_attribute_key c key)) [
          | inl secret ↦
              check_attributes-IsHarmless attributes kept (rw (check_attributes, good, secret) at e)
          | inr open_key ↦ elim (Result-cases (check_value c limits key value)) [
            | inl (x, wrong) ↦ absurd (cc (rw (check_attributes, good, open_key, wrong) at e))
            | inr (v, right) ↦ elim (Result-cases (check_attributes c limits attributes)) [
              | inl (x, wrong) ↦
                  absurd (cc (rw (check_attributes, good, open_key, right, wrong) at e))
              | inr (m, rest) ↦
                  subst (λ n. Entries IsHarmless n)
                    (ok-injective ((key, v) ∷ m) kept
                      (rw (check_attributes, good, open_key, right, rest) at e))
                    (
                      record {
                        filled = ground arith;
                        fits = ground arith;
                        open_key = open_key;
                        allowed = check_value-allowed key value v right;
                      },
                      check_attributes-IsHarmless attributes m rest,
                    )
            ]
          ]
        ]
      ]

  holds_otherwise : (b : Bool) → not b ≡ false → b ≡ true
  holds_otherwise true e = refl
  holds_otherwise false e = absurd (ground arith)

  pub or_first : (a b : Bool) → (a || b) ≡ false → a ≡ false
  or_first a b e = ground arith

  check_fields-none :
      (s : Span h) (kept : List (Bytes × Value h))
      → check_fields c limits s ≡ none
      → Entries IsHarmless kept
      → IsClean (record s { attributes = kept })
  unfolding check_fields
  check_fields-none s kept e harmless =
      elim (Bool-cases (null s.trace_id || ltb limits.max_identifier_size (length s.trace_id))) [
        | inl bad ↦ absurd (cc (rw (check_fields, bad) at e))
        | inr traced ↦
            elim (Bool-cases
              (null s.span_id || ltb limits.max_identifier_size (length s.span_id))) [
                | inl bad ↦ absurd (cc (rw (check_fields, traced, bad) at e))
                | inr named ↦
                    elim (Bool-cases
                      (bytes_eq s.parent_span_id s.span_id && not (null s.parent_span_id))) [
                        | inl bad ↦ absurd (cc (rw (check_fields, traced, named, bad) at e))
                        | inr not_own ↦
                            elim (Bool-cases
                              (ltb limits.max_identifier_size (length s.parent_span_id))) [
                                | inl bad ↦
                                    absurd
                                      (cc (rw (check_fields, traced, named, not_own, bad) at e))
                                | inr above ↦
                                    elim (Bool-cases (
                                      null (h.trim_space s.name)
                                      || ltb limits.max_name_size (length s.name))) [
                                        | inl bad ↦ absurd (
                                            cc (
                                              rw (check_fields, traced, named, not_own, above, bad)
                                                at e))
                                        | inr name ↦
                                            elim (Bool-cases (not (has s.kind valid_kinds))) [
                                              | inl bad ↦ absurd (
                                                  cc (
                                                    rw
                                                      (
                                                        check_fields, traced, named, not_own, above,
                                                        name, bad,
                                                      )
                                                      at e))
                                              | inr kind ↦ record {
                                                traced = or_first _ _ traced;
                                                named = or_first _ _ named;
                                                not_own = not_own;
                                                kind =
                                                    holds_otherwise (has s.kind valid_kinds) kind;
                                                attributes = harmless;
                                              }
                                            ]
                                      ]
                              ]
                      ]
              ]
      ]

  -- A span that passes is clean.
  validate_span-IsClean : (span s : Span h) → validate_span c limits span ≡ ok s → IsClean s
  unfolding validate_span
  validate_span-IsClean span s e = elim (Option-cases (check_fields c limits span)) [
    | inr (x, bad) ↦ absurd (cc (rw (validate_span, bad) at e))
    | inl good ↦ elim (Result-cases (check_attributes c limits span.attributes)) [
      | inl (x, bad) ↦ absurd (cc (rw (validate_span, good, bad) at e))
      | inr (kept, right) ↦
          subst (λ t. IsClean t)
            (ok-injective (record span { attributes = kept }) s
              (rw (validate_span, good, right) at e))
            (check_fields-none span kept good
              (check_attributes-IsHarmless span.attributes kept right))
    ]
  ]

  validate_spans-IsClean :
      (spans kept : List (Span h)) → validate_spans c limits spans ≡ ok kept → All IsClean kept
  unfolding validate_spans
  validate_spans-IsClean [] kept e = subst (λ m. All IsClean m) (ok-injective [] kept e) tt
  validate_spans-IsClean (span ∷ spans) kept e = elim (Result-cases (validate_span c limits span)) [
    | inl (x, bad) ↦ absurd (cc (rw (validate_spans, bad) at e))
    | inr (s, good) ↦ elim (Result-cases (validate_spans c limits spans)) [
      | inl (x, bad) ↦ absurd (cc (rw (validate_spans, good, bad) at e))
      | inr (m, rest) ↦
          subst (λ n. All IsClean n)
            (ok-injective (s ∷ m) kept (rw (validate_spans, good, rest) at e))
            (validate_span-IsClean span s good, validate_spans-IsClean spans m rest)
    ]
  ]

  pub validate_span_batch-IsClean :
      (batch b : SpanBatch (Span h))
      → validate_span_batch c limits batch ≡ ok b
      → (null b.service_name ≡ false) × All IsClean b.spans
  unfolding validate_span_batch
  validate_span_batch-IsClean batch b e =
      elim (Bool-cases (
        null (h.trim_space batch.service_name)
        || ltb limits.max_identifier_size (length (h.trim_space batch.service_name)))) [
          | inl bad ↦ absurd (cc (rw (validate_span_batch, bad) at e))
          | inr name ↦
              elim (Bool-cases (ltb limits.max_identifier_size (length batch.node_version))) [
                | inl bad ↦ absurd (cc (rw (validate_span_batch, name, bad) at e))
                | inr version ↦
                    elim (Bool-cases
                      (null batch.spans || ltb limits.max_spans (length batch.spans))) [
                        | inl bad ↦ absurd (cc (rw (validate_span_batch, name, version, bad) at e))
                        | inr some_spans ↦
                            elim (Result-cases (validate_spans c limits batch.spans)) [
                              | inl (x, bad) ↦ absurd (
                                  cc
                                    (rw (validate_span_batch, name, version, some_spans, bad) at e))
                              | inr (m, good) ↦
                                  subst
                                    (λ (d : SpanBatch (Span h)).
                                      (null d.service_name ≡ false) × All IsClean d.spans)
                                    (ok-injective _ b (
                                      rw (validate_span_batch, name, version, some_spans, good) at
                                        e))
                                    (or_first _ _ name, validate_spans-IsClean batch.spans m good)
                            ]
                      ]
              ]
        ]
