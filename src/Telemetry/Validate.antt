-- ===== src/Telemetry/Validate.antt =====
-- runtime/go/internal/telemetry/validate.go: what is taken in, and which attributes are removed. A span
-- of the wire has the fields of the engine's, to which the sink copies them one by one.
mod Spans
mod Clean
mod Examples
use node_flow.Prelude.{
  ℕ, Bool, true, false, not, ◌&&◌, ◌||◌, Option, none, some, List, [], ◌∷◌, ◌++◌, length, null,
  bytes_eq, has, ltb, ◌==◌, if◌then◌else◌, Result, ok, err, ◌>>=◌,
}
use node_flow.Bytes.{Bytes}
use node_flow.Telemetry.{SpanBatch, RuntimeMetrics, Envelope}
use node_flow.Topology.{Host, Value, nothing, text, number, boolean, other, Span}
use node_flow.Topology.Identity.{has_prefix}
use node_flow.Topology.Ingest.{custom, topology_kinds, error_status}

pub record Limits : Type 0 where
  pub max_spans : ℕ
  pub max_attributes : ℕ
  pub max_identifier_size : ℕ
  pub max_name_size : ℕ
  pub max_attribute_size : ℕ

abbrev pub default_limits : Limits
default_limits = record {
  max_spans = 2048;
  max_attributes = 128;
  max_identifier_size = 256;
  max_name_size = 512;
  max_attribute_size = 4096;
}

-- `>= 0`, `math.IsNaN` and `math.IsInf` on float64. `parse` is `url.Parse` with the scheme and the host
-- of its result, and with that result's string without user, query and fragment.
pub record Checks (h : Host) : Type 0 where
  pub at_least_zero : h.F → Bool
  pub is_nan : h.F → Bool
  pub is_inf : h.F → Bool
  pub parse : Bytes → Option (Bytes × Bytes × Bytes)

pub data ValidationError : Type 0 where
  bad_version one_payload_required bad_service_name bad_node_version bad_span_count :
      ValidationError
  bad_trace_id bad_span_id own_parent bad_parent_id bad_name bad_kind bad_status : ValidationError
  bad_timing too_many_attributes bad_key bad_size not_finite bad_value : ValidationError
  bad_runtime_value bad_utilization : ValidationError

-- The numbers of `RuntimeMetrics`, behind the name of the service.
pub record Gauges (h : Host) : Type 0 where
  pub timestamp : h.F
  pub rss_bytes : ℕ
  pub heap_used_bytes : ℕ
  pub heap_total_bytes : ℕ
  pub cpu_percent : h.F
  pub event_loop_utilization : h.F
  pub uptime_seconds : h.F

-- "1.0".
abbrev pub protocol_version : Bytes
protocol_version = b'1' ∷ b'.' ∷ b'0' ∷ []

-- The kinds, with "internal".
abbrev pub valid_kinds : List Bytes
valid_kinds = custom ∷ (b'i' ∷ b'n' ∷ b't' ∷ b'e' ∷ b'r' ∷ b'n' ∷ b'a' ∷ b'l' ∷ []) ∷ topology_kinds

-- "ok".
abbrev pub ok_status : Bytes
ok_status = b'o' ∷ b'k' ∷ []

abbrev pub sensitive_fragments : List Bytes
sensitive_fragments =
    (b'a' ∷ b'u' ∷ b't' ∷ b'h' ∷ b'o' ∷ b'r' ∷ b'i' ∷ b'z' ∷ b'a' ∷ b't' ∷ b'i' ∷ b'o' ∷ b'n' ∷ [])
    ∷ (b'c' ∷ b'o' ∷ b'o' ∷ b'k' ∷ b'i' ∷ b'e' ∷ [])
    ∷ (b's' ∷ b'e' ∷ b't' ∷ b'_' ∷ b'c' ∷ b'o' ∷ b'o' ∷ b'k' ∷ b'i' ∷ b'e' ∷ [])
    ∷ (b'p' ∷ b'a' ∷ b's' ∷ b's' ∷ b'w' ∷ b'o' ∷ b'r' ∷ b'd' ∷ [])
    ∷ (b'p' ∷ b'a' ∷ b's' ∷ b's' ∷ b'w' ∷ b'd' ∷ [])
    ∷ (b's' ∷ b'e' ∷ b'c' ∷ b'r' ∷ b'e' ∷ b't' ∷ [])
    ∷ (b't' ∷ b'o' ∷ b'k' ∷ b'e' ∷ b'n' ∷ [])
    ∷ (b'a' ∷ b'c' ∷ b'c' ∷ b'e' ∷ b's' ∷ b's' ∷ b'_' ∷ b't' ∷ b'o' ∷ b'k' ∷ b'e' ∷ b'n' ∷ [])
    ∷ (b'r' ∷ b'e' ∷ b'f' ∷ b'r' ∷ b'e' ∷ b's' ∷ b'h' ∷ b'_' ∷ b't' ∷ b'o' ∷ b'k' ∷ b'e' ∷ b'n'
        ∷ [])
    ∷ (b'a' ∷ b'p' ∷ b'i' ∷ b'_' ∷ b'k' ∷ b'e' ∷ b'y' ∷ [])
    ∷ (b'c' ∷ b'l' ∷ b'i' ∷ b'e' ∷ b'n' ∷ b't' ∷ b'_' ∷ b's' ∷ b'e' ∷ b'c' ∷ b'r' ∷ b'e' ∷ b't'
        ∷ [])
    ∷ (b'r' ∷ b'e' ∷ b'q' ∷ b'u' ∷ b'e' ∷ b's' ∷ b't' ∷ b'_' ∷ b'b' ∷ b'o' ∷ b'd' ∷ b'y' ∷ [])
    ∷ (b'r' ∷ b'e' ∷ b's' ∷ b'p' ∷ b'o' ∷ b'n' ∷ b's' ∷ b'e' ∷ b'_' ∷ b'b' ∷ b'o' ∷ b'd' ∷ b'y'
        ∷ [])
    ∷ (b'm' ∷ b'e' ∷ b's' ∷ b's' ∷ b'a' ∷ b'g' ∷ b'e' ∷ b'_' ∷ b'b' ∷ b'o' ∷ b'd' ∷ b'y' ∷ [])
    ∷ (b'm' ∷ b'e' ∷ b's' ∷ b's' ∷ b'a' ∷ b'g' ∷ b'e' ∷ b'_' ∷ b'p' ∷ b'a' ∷ b'y' ∷ b'l' ∷ b'o'
        ∷ b'a' ∷ b'd' ∷ [])
    ∷ (b'd' ∷ b'b' ∷ b'_' ∷ b's' ∷ b't' ∷ b'a' ∷ b't' ∷ b'e' ∷ b'm' ∷ b'e' ∷ b'n' ∷ b't' ∷ [])
    ∷ (b'q' ∷ b'u' ∷ b'e' ∷ b'r' ∷ b'y' ∷ b'_' ∷ b't' ∷ b'e' ∷ b'x' ∷ b't' ∷ [])
    ∷ (b'c' ∷ b'o' ∷ b'n' ∷ b'n' ∷ b'e' ∷ b'c' ∷ b't' ∷ b'i' ∷ b'o' ∷ b'n' ∷ b'_' ∷ b's' ∷ b't'
        ∷ b'r' ∷ b'i' ∷ b'n' ∷ b'g' ∷ [])
    ∷ (b'd' ∷ b's' ∷ b'n' ∷ [])
    ∷ (b'u' ∷ b'r' ∷ b'l' ∷ b'_' ∷ b'q' ∷ b'u' ∷ b'e' ∷ b'r' ∷ b'y' ∷ [])
    ∷ []

-- "[REDACTED]".
abbrev pub redacted : Bytes
redacted = b'[' ∷ b'R' ∷ b'E' ∷ b'D' ∷ b'A' ∷ b'C' ∷ b'T' ∷ b'E' ∷ b'D' ∷ b']' ∷ []

-- "url.full" and "http.url".
abbrev pub url_keys : List Bytes
url_keys =
    (b'u' ∷ b'r' ∷ b'l' ∷ b'.' ∷ b'f' ∷ b'u' ∷ b'l' ∷ b'l' ∷ [])
    ∷ (b'h' ∷ b't' ∷ b't' ∷ b'p' ∷ b'.' ∷ b'u' ∷ b'r' ∷ b'l' ∷ [])
    ∷ []

-- `strings.NewReplacer`, of one byte each.
unfoldable pub replace_separators : Bytes → Bytes
replace_separators [] = []
replace_separators (c ∷ cs) =
    let rest = replace_separators cs in
    if (c == b'-') || (c == b'.') || (c == b'/') then b'_' ∷ rest else c ∷ rest

-- `strings.Contains`.
unfoldable pub contains : Bytes → Bytes → Bool
contains [] p = null p
contains (c ∷ cs) p = has_prefix (c ∷ cs) p || contains cs p

-- `strings.HasSuffix`.
unfoldable pub has_suffix : Bytes → Bytes → Bool
has_suffix [] p = null p
has_suffix (c ∷ cs) p = bytes_eq (c ∷ cs) p || has_suffix cs p

unfoldable pub is_sensitive : Bytes → List Bytes → Bool
is_sensitive key [] = false
is_sensitive key (f ∷ fs) =
    bytes_eq key f
    || has_suffix key (b'_' ∷ f)
    || contains key (b'_' ∷ f ++ (b'_' ∷ []))
    || is_sensitive key fs

module _ {h : Host} (c : Checks h) where
  unfoldable pub sensitive_attribute_key : Bytes → Bool
  sensitive_attribute_key key =
      is_sensitive (replace_separators (h.to_lower key)) sensitive_fragments

  abbrev pub redact : Option (Bytes × Bytes × Bytes) → Bytes
  redact none = redacted
  redact (some (scheme, host, rest)) = if null scheme || null host then redacted else rest

  unfoldable pub sanitize_url_attribute : Bytes → Bytes → Bytes
  sanitize_url_attribute key value =
      if has (h.to_lower key) url_keys then redact (c.parse value) else value

  unfoldable pub finite_non_negative : h.F → Bool
  finite_non_negative f = c.at_least_zero f && not (c.is_nan f) && not (c.is_inf f)

  -- The switch on a value's type.
  unfoldable pub check_value : Limits → Bytes → Value h → Result ValidationError (Value h)
  check_value limits key nothing = err bad_value
  check_value limits key (text s) =
      if ltb limits.max_attribute_size (length s)
      then err bad_size
      else ok (text (sanitize_url_attribute key s))
  check_value limits key (number f) =
      if c.is_nan f || c.is_inf f then err not_finite else ok (number f)
  check_value limits key (boolean b) = ok (boolean b)
  check_value limits key (other o) = err bad_value

  -- The loop over the attributes.
  unfoldable pub check_attributes :
      Limits → List (Bytes × Value h) → Result ValidationError (List (Bytes × Value h))
  check_attributes limits [] = ok []
  check_attributes limits ((key, value) ∷ attributes) =
      let rest = check_attributes limits attributes in
      if null key || ltb limits.max_identifier_size (length key)
      then err bad_key
      else if sensitive_attribute_key key
      then rest
      else (check_value limits key value >>= (λ v. rest >>= (λ kept. ok ((key, v) ∷ kept))))

  unfoldable pub check_fields : Limits → Span h → Option ValidationError
  check_fields limits span =
      if null span.trace_id || ltb limits.max_identifier_size (length span.trace_id)
      then some bad_trace_id
      else if null span.span_id || ltb limits.max_identifier_size (length span.span_id)
      then some bad_span_id
      else if bytes_eq span.parent_span_id span.span_id && not (null span.parent_span_id)
      then some own_parent
      else if ltb limits.max_identifier_size (length span.parent_span_id)
      then some bad_parent_id
      else if null (h.trim_space span.name) || ltb limits.max_name_size (length span.name)
      then some bad_name
      else if not (has span.kind valid_kinds)
      then some bad_kind
      else if not (bytes_eq span.status ok_status) && not (bytes_eq span.status error_status)
      then some bad_status
      else if not (finite_non_negative span.start_time) || not (finite_non_negative span.duration)
      then some bad_timing
      else if ltb limits.max_attributes (length span.attributes)
      then some too_many_attributes
      else none

  unfoldable pub validate_span : Limits → Span h → Result ValidationError (Span h)
  validate_span limits span = elim (check_fields limits span) [
    | some e ↦ err e
    | none ↦
        check_attributes limits span.attributes >>= (λ kept. ok (record span { attributes = kept }))
  ]

  unfoldable pub validate_spans : Limits → List (Span h) → Result ValidationError (List (Span h))
  validate_spans limits [] = ok []
  validate_spans limits (span ∷ spans) =
      let rest = validate_spans limits spans in
      validate_span limits span >>= (λ s. rest >>= (λ kept. ok (s ∷ kept)))

  unfoldable pub validate_span_batch :
      Limits → SpanBatch (Span h) → Result ValidationError (SpanBatch (Span h))
  validate_span_batch limits batch =
      let name = h.trim_space batch.service_name in
      if null name || ltb limits.max_identifier_size (length name)
      then err bad_service_name
      else if ltb limits.max_identifier_size (length batch.node_version)
      then err bad_node_version
      else if null batch.spans || ltb limits.max_spans (length batch.spans)
      then err bad_span_count
      else (validate_spans limits batch.spans
          >>= (λ spans. ok (record batch { service_name = name; spans = spans })))

  unfoldable pub validate_runtime :
      Limits → RuntimeMetrics (Gauges h) → Result ValidationError (RuntimeMetrics (Gauges h))
  validate_runtime limits metrics =
      let name = h.trim_space metrics.service_name in
      let g = metrics.gauges in
      if null name || ltb limits.max_identifier_size (length name)
      then err bad_service_name
      else if not (finite_non_negative g.timestamp)
          || not (finite_non_negative g.cpu_percent)
          || not (finite_non_negative g.event_loop_utilization)
          || not (finite_non_negative g.uptime_seconds)
      then err bad_runtime_value
      else if h.lt_f (h.of_nat 100) g.event_loop_utilization
      then err bad_utilization
      else ok (record metrics { service_name = name })

  -- `ValidateAndSanitize`.
  unfoldable pub validate_payload :
      Limits
      → Envelope (Span h) (Gauges h)
      → Option (SpanBatch (Span h))
      → Option (RuntimeMetrics (Gauges h))
      → Result ValidationError (Envelope (Span h) (Gauges h))
  validate_payload limits e (some batch) none =
      validate_span_batch limits batch >>= (λ b. ok (record e { span_batch = some b }))
  validate_payload limits e none (some metrics) =
      validate_runtime limits metrics >>= (λ m. ok (record e { runtime_metrics = some m }))
  validate_payload limits e _ _ = err one_payload_required

  unfoldable pub validate_and_sanitize :
      Limits → Envelope (Span h) (Gauges h) → Result ValidationError (Envelope (Span h) (Gauges h))
  validate_and_sanitize limits e =
      let checked = validate_payload limits e e.span_batch e.runtime_metrics in
      if bytes_eq e.protocol_version protocol_version then checked else err bad_version
