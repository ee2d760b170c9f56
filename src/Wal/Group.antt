-- ===== src/Wal/Group.antt =====
-- runtime/go/internal/spool/wal.go: the bytes that `commitGroup` appends for a group of records.
use node_flow.Prelude.{ℕ, ◌%◌, ◌^◌, List, [], ◌∷◌, ◌++◌, length}
use node_flow.Bytes.{Bytes}
use node_flow.Wal.Format.{Platform, Record, Commit, encode_wal_commit_frame}

-- `preparedWALRecord`, without the channel that the answer goes to.
pub record Prepared (E : Type 0) : Type 0 where
  pub item : Record E
  pub frame : Bytes

module _ {E : Type 0} where
  abbrev pub group_data : List (Prepared E) → Bytes
  group_data [] = []
  group_data (r ∷ rs) = r.frame ++ group_data rs

  abbrev pub group_first : List (Prepared E) → ℕ
  group_first [] = 0
  group_first (r ∷ rs) = r.item.id

  abbrev pub group_last : List (Prepared E) → ℕ
  group_last [] = 0
  group_last (r ∷ []) = r.item.id
  group_last (r ∷ s ∷ rs) = group_last (s ∷ rs)

module _ (p : Platform) where
  unfoldable pub group_commit : List (Prepared p.Envelope) → Commit
  group_commit rs = record {
    first_id = group_first rs;
    last_id = group_last rs;
    count = length rs % 2 ^ 32;
    data_bytes = length (group_data rs) % 2 ^ 32;
    checksum = p.checksum (group_data rs);
  }

  unfoldable pub encode_group : List (Prepared p.Envelope) → Bytes
  encode_group rs = group_data rs ++ encode_wal_commit_frame p (group_commit rs)
