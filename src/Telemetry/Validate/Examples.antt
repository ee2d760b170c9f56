-- ===== src/Telemetry/Validate/Examples.antt =====
-- An envelope with a password among the attributes of its span.
use node_flow.Prelude.{◌≡◌, refl, true, false, none, some, List, [], ◌∷◌, ok}
use node_flow.Bytes.{Bytes}
use node_flow.Telemetry.{SpanBatch, Envelope}
use node_flow.Telemetry.Validate.{
  Checks, Gauges, default_limits, protocol_version, ok_status, is_sensitive, replace_separators,
  has_suffix, contains, sensitive_attribute_key, sanitize_url_attribute, finite_non_negative,
  check_value, check_attributes, check_fields, validate_span, validate_spans, validate_span_batch,
  validate_payload, validate_and_sanitize,
}
use node_flow.Telemetry.Validate.Clean.{IsAccepted, validate_and_sanitize-IsAccepted}
use node_flow.Topology.{Value, text, Span}
use node_flow.Topology.Identity.{has_prefix}
use node_flow.Topology.Ingest.{service}
use node_flow.Topology.Plain.{host}

abbrev easy : Checks host
easy = record {
  at_least_zero = λ f. true;
  is_nan = λ f. false;
  is_inf = λ f. false;
  parse = λ s. none;
}

abbrev span_with : List (Bytes × Value host) → Span host
span_with attributes = record {
  trace_id = b't' ∷ [];
  span_id = b'a' ∷ [];
  parent_span_id = [];
  name = b'n' ∷ [];
  kind = service;
  start_time = 1;
  duration = 2;
  status = ok_status;
  attributes = attributes;
}

abbrev batch_of : List (Bytes × Value host) → SpanBatch (Span host)
batch_of attributes = record {
  service_name = b's' ∷ [];
  node_version = [];
  spans = span_with attributes ∷ [];
}

abbrev envelope_of : List (Bytes × Value host) → Envelope (Span host) (Gauges host)
envelope_of attributes = record {
  protocol_version = protocol_version;
  span_batch = some (batch_of attributes);
  runtime_metrics = none;
}

-- "dsn", and a key that is not sensitive.
abbrev with_secret : List (Bytes × Value host)
with_secret = (b'd' ∷ b's' ∷ b'n' ∷ [], text (b'x' ∷ [])) ∷ (b'k' ∷ [], text (b'y' ∷ [])) ∷ []

abbrev without_secret : List (Bytes × Value host)
without_secret = (b'k' ∷ [], text (b'y' ∷ [])) ∷ []

secret-removed :
    validate_and_sanitize easy default_limits (envelope_of with_secret)
    ≡ ok (envelope_of without_secret)
unfolding validate_and_sanitize validate_payload validate_span_batch validate_spans validate_span
    check_fields check_attributes check_value finite_non_negative sanitize_url_attribute
    sensitive_attribute_key is_sensitive replace_separators has_suffix contains has_prefix
secret-removed = refl

validate_and_sanitize-IsAccepted_example :
    IsAccepted easy default_limits (envelope_of without_secret)
validate_and_sanitize-IsAccepted_example =
    validate_and_sanitize-IsAccepted easy default_limits (envelope_of with_secret)
      (envelope_of without_secret) secret-removed
