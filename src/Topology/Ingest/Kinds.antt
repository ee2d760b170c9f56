-- ===== src/Topology/Ingest/Kinds.antt =====
-- runtime/go/internal/topology/engine.go: the kinds of spans, the names of their attributes, and the
-- small helpers on strings.
use node_flow.Prelude.{Bool, true, false, List, [], ◌∷◌, ◌++◌, null, has, if◌then◌else◌}
use node_flow.Bytes.{Bytes}

abbrev pub http_route : Bytes
http_route = b'h' ∷ b't' ∷ b't' ∷ b'p' ∷ b'-' ∷ b'r' ∷ b'o' ∷ b'u' ∷ b't' ∷ b'e' ∷ []

abbrev pub controller : Bytes
controller = b'c' ∷ b'o' ∷ b'n' ∷ b't' ∷ b'r' ∷ b'o' ∷ b'l' ∷ b'l' ∷ b'e' ∷ b'r' ∷ []

abbrev pub service : Bytes
service = b's' ∷ b'e' ∷ b'r' ∷ b'v' ∷ b'i' ∷ b'c' ∷ b'e' ∷ []

abbrev pub worker : Bytes
worker = b'w' ∷ b'o' ∷ b'r' ∷ b'k' ∷ b'e' ∷ b'r' ∷ []

abbrev pub custom : Bytes
custom = b'c' ∷ b'u' ∷ b's' ∷ b't' ∷ b'o' ∷ b'm' ∷ []

-- "error".
abbrev pub error_status : Bytes
error_status = b'e' ∷ b'r' ∷ b'r' ∷ b'o' ∷ b'r' ∷ []

-- The keys of `topologyKinds`, with "database", "redis", "queue" and "external-http".
abbrev pub topology_kinds : List Bytes
topology_kinds =
    http_route
    ∷ controller
    ∷ service
    ∷ (b'd' ∷ b'a' ∷ b't' ∷ b'a' ∷ b'b' ∷ b'a' ∷ b's' ∷ b'e' ∷ [])
    ∷ (b'r' ∷ b'e' ∷ b'd' ∷ b'i' ∷ b's' ∷ [])
    ∷ (b'q' ∷ b'u' ∷ b'e' ∷ b'u' ∷ b'e' ∷ [])
    ∷ worker
    ∷ (b'e' ∷ b'x' ∷ b't' ∷ b'e' ∷ b'r' ∷ b'n' ∷ b'a' ∷ b'l' ∷ b'-' ∷ b'h' ∷ b't' ∷ b't' ∷ b'p'
        ∷ [])
    ∷ []

-- The names of the attributes, behind "nodeflow.".
abbrev pub attribute_name : Bytes → Bytes
attribute_name tail = b'n' ∷ b'o' ∷ b'd' ∷ b'e' ∷ b'f' ∷ b'l' ∷ b'o' ∷ b'w' ∷ b'.' ∷ tail

abbrev pub identity_key : Bytes
identity_key = attribute_name (b'i' ∷ b'd' ∷ b'e' ∷ b'n' ∷ b't' ∷ b'i' ∷ b't' ∷ b'y' ∷ [])

abbrev pub class_key : Bytes
class_key = attribute_name (b'c' ∷ b'l' ∷ b'a' ∷ b's' ∷ b's' ∷ [])

abbrev pub framework_key : Bytes
framework_key = attribute_name (b'f' ∷ b'r' ∷ b'a' ∷ b'm' ∷ b'e' ∷ b'w' ∷ b'o' ∷ b'r' ∷ b'k' ∷ [])

abbrev pub topology_name_key : Bytes
topology_name_key =
    attribute_name (
      b't' ∷ b'o' ∷ b'p' ∷ b'o' ∷ b'l' ∷ b'o' ∷ b'g' ∷ b'y' ∷ b'_' ∷ b'n' ∷ b'a' ∷ b'm' ∷ b'e' ∷ [])

abbrev pub method_key : Bytes
method_key = attribute_name (b'm' ∷ b'e' ∷ b't' ∷ b'h' ∷ b'o' ∷ b'd' ∷ [])

abbrev pub operation_key : Bytes
operation_key = attribute_name (b'o' ∷ b'p' ∷ b'e' ∷ b'r' ∷ b'a' ∷ b't' ∷ b'i' ∷ b'o' ∷ b'n' ∷ [])

-- `firstNonEmpty`, of two.
abbrev pub first_non_empty : Bytes → Bytes → Bytes
first_non_empty a b = if null a then b else a

-- "true" and "false".
abbrev pub format_bool : Bool → Bytes
format_bool true = b't' ∷ b'r' ∷ b'u' ∷ b'e' ∷ []
format_bool false = b'f' ∷ b'a' ∷ b'l' ∷ b's' ∷ b'e' ∷ []

abbrev pub add_new : Bytes → List Bytes → List Bytes
add_new k ks = if has k ks then ks else ks ++ (k ∷ [])

abbrev pub edge_span_key : Bytes → Bytes → Bytes
edge_span_key trace_id span_id = trace_id ++ (b':' ∷ span_id)
