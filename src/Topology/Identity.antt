-- ===== src/Topology/Identity.antt =====
-- runtime/go/internal/topology/identity.go: stable identifiers.
use node_flow.Prelude.{
  ℕ, ◌*◌, ◌%◌, ◌^◌, Bool, true, false, not, ◌&&◌, ◌||◌, List, [], ◌∷◌, ◌++◌, bytes_eq, null, leb,
  ◌==◌, if◌then◌else◌, bit_xor,
}
use node_flow.Bytes.{Bytes}
use node_flow.Topology.{Host}

-- `[a-z0-9._/-]`.
abbrev pub is_identity : ℕ → Bool
is_identity c =
    (leb b'a' c && leb c b'z')
    || (leb b'0' c && leb c b'9')
    || (c == b'.')
    || (c == b'_')
    || (c == b'/')
    || (c == b'-')

-- `invalidIdentityCharacters.ReplaceAllString(value, "-")`: a run of other characters becomes one
-- dash. The flag says that the run has its dash.
unfoldable pub replace_runs : Bool → Bytes → Bytes
replace_runs in_run [] = []
replace_runs in_run (c ∷ cs) =
    if is_identity c
    then c ∷ replace_runs false cs
    else if in_run
    then replace_runs true cs
    else b'-' ∷ replace_runs true cs

unfoldable pub trim_left : Bytes → Bytes
trim_left [] = []
trim_left (c ∷ cs) = if c == b'-' then trim_left cs else c ∷ cs

unfoldable pub trim_right : Bytes → Bytes
trim_right [] = []
trim_right (c ∷ cs) = let rest = trim_right cs in if null rest && (c == b'-') then [] else c ∷ rest

-- `strings.Trim(value, "-")`.
unfoldable pub trim_dashes : Bytes → Bytes
trim_dashes s = trim_right (trim_left s)

-- The first part of `strings.Split(value, ":")`, and the parts behind it.
unfoldable pub split_colons : Bytes → Bytes × List Bytes
split_colons [] = ([], [])
split_colons (c ∷ cs) =
    let rest = split_colons cs in if c == b':' then ([], rest.0 ∷ rest.1) else (c ∷ rest.0, rest.1)

-- `strings.Join(parts, ":")`.
unfoldable pub join_with : Bytes → List Bytes → Bytes
join_with sep [] = []
join_with sep (p ∷ []) = p
join_with sep (p ∷ q ∷ ps) = p ++ (sep ++ join_with sep (q ∷ ps))

unfoldable pub has_prefix : Bytes → Bytes → Bool
has_prefix s [] = true
has_prefix [] (p ∷ ps) = false
has_prefix (c ∷ cs) (p ∷ ps) = if c == p then has_prefix cs ps else false

-- "dependency:" and "->".
unfoldable pub stable_edge_id : Bytes → Bytes → Bytes
stable_edge_id source target =
    (b'd' ∷ b'e' ∷ b'p' ∷ b'e' ∷ b'n' ∷ b'd' ∷ b'e' ∷ b'n' ∷ b'c' ∷ b'y' ∷ b':' ∷ [])
    ++ (source ++ (b'-' ∷ b'>' ∷ target))

unfoldable pub hash_units : ℕ → List ℕ → ℕ
hash_units hash [] = hash
hash_units hash (u ∷ us) = hash_units (bit_xor hash u * 16777619 % 2 ^ 32) us

module _ (h : Host) where
  abbrev pub normalize_part : Bytes → Bytes
  normalize_part part = trim_dashes (replace_runs false (h.trim_space part))

  -- The loop over the parts.
  unfoldable pub normalize_parts : List Bytes → List Bytes
  normalize_parts [] = []
  normalize_parts (part ∷ parts) =
      let rest = normalize_parts parts in
      if null (normalize_part part) then rest else normalize_part part ∷ rest

  unfoldable pub normalize_semantic_identity : Bytes → Bytes
  normalize_semantic_identity value =
      let parts = split_colons (h.to_lower (h.trim_space value)) in
      join_with (b':' ∷ []) (normalize_parts (parts.0 ∷ parts.1))

  abbrev pub or_unknown : Bytes → Bytes
  or_unknown identity =
      if null identity then b'u' ∷ b'n' ∷ b'k' ∷ b'n' ∷ b'o' ∷ b'w' ∷ b'n' ∷ [] else identity

  abbrev pub under_kind : Bytes → Bytes → Bytes
  under_kind kind identity =
      if not (bytes_eq identity kind) && not (has_prefix identity (kind ++ (b':' ∷ [])))
      then kind ++ (b':' ∷ identity)
      else identity

  abbrev pub under_framework : Bytes → Bytes → Bytes
  under_framework framework identity =
      if not (null framework) && not (has_prefix identity (framework ++ (b':' ∷ [])))
      then framework ++ (b':' ∷ identity)
      else identity

  unfoldable pub stable_node_id : Bytes → Bytes → Bytes → Bytes
  stable_node_id kind identity framework = under_framework (normalize_semantic_identity framework) (
      under_kind (normalize_semantic_identity kind)
        (or_unknown (normalize_semantic_identity identity)))

  unfoldable pub stable_hash : Bytes → Bytes → Bytes
  stable_hash prefix value = prefix ++ (b':' ∷ h.base36 (hash_units 2166136261 (h.utf16 value)))

  unfoldable pub stable_path_id : Bytes → List Bytes → Bytes
  stable_path_id entrypoint nodes =
      stable_hash (b'p' ∷ b'a' ∷ b't' ∷ b'h' ∷ [])
        (normalize_semantic_identity entrypoint ++ (b':' ∷ join_with (b'>' ∷ []) nodes))
