-- ===== src/Wal/Recovery/Torn.antt =====
-- The recovery loop at a tail that a crash cut short: a proper prefix of a group.
use node_flow.Prelude.{
  ℕ, zero, suc, ◌+◌, ◌%◌, ◌^◌, ◌≤◌, ◌<◌, ◌≡◌, refl, sym, ap, subst, ◌∙◌, Bool, true, false, not,
  ◌||◌, List, [], ◌∷◌, ◌++◌, length, take, null, length-append, append-nil, append_assoc,
  append_split, take-append_le, lt→ltb, ltb, ltb→lt, Bool-cases, inl, inr, ok, arith, All,
}
use node_flow.Bytes.{Bytes}
use node_flow.Wal.Format.{
  Platform, Laws, FrameKind, data_frame, StateEntry, encode_wal_frame, decode_wal_frame_header,
}
use node_flow.Wal.Format.RoundTrip.{decode_wal_frame_header-frame_header, length-encode_wal_frame}
use node_flow.Wal.Group.{Prepared, group_data}
use node_flow.Wal.Recovery.{Committed, Pending, scan}
use node_flow.Wal.Recovery.Scan.{Scans, frame_head}
use node_flow.Wal.Recovery.Groups.{IsStored, Fresh, framed, joined_one, payload_of, scan_record}

-- Whether the loop asks for the tail `t` to be cut off.
abbrev pub tear : Bytes → Pending → Bool
tear [] q = not (null q.frames)
tear (b ∷ bs) q = true

or_true : (b : Bool) → (b || true) ≡ true
or_true true = refl
or_true false = refl

tear_pos : (t : Bytes) (q : Pending) → 0 < length t → tear t q ≡ true
tear_pos [] q h = absurd (omega arith)
tear_pos (b ∷ bs) q h = refl

null-append : {A : Type 0} (xs ys : List A) → 0 < length ys → null (xs ++ ys) ≡ false
null-append [] [] h = absurd (omega arith)
null-append [] (y ∷ ys) h = refl
null-append (x ∷ xs) ys h = refl

tear_joined :
    {E : Type 0} (u : Bytes) (q : Pending) (offset : ℕ) (r : Prepared E)
    → tear u (joined_one q offset r) ≡ true
tear_joined [] q offset r = rw (null-append q.frames (framed r offset ∷ []) (omega arith))
tear_joined (b ∷ bs) q offset r = refl

module _ (p : Platform) (laws : Laws p) (segment_id : ℕ) (states : List (ℕ × StateEntry))
    (sb : ℕ) where
  torn_step :
      (fuel : ℕ) (t : Bytes) (offset : ℕ) (c : Committed) (q : Pending) (kind : FrameKind)
      (sequence n crc : ℕ)
      → (28 ≤ length t → decode_wal_frame_header p (take 28 t) ≡ ok (kind, sequence, n, crc))
      → length t < 28 + n
      → length t ≤ fuel
      → scan p segment_id states fuel sb t offset c q ≡ ok (c, tear t q)
  unfolding scan
  torn_step zero [] offset c q kind sequence n crc hd short enough = refl
  torn_step (suc fuel) [] offset c q kind sequence n crc hd short enough = refl
  torn_step zero (b ∷ bs) offset c q kind sequence n crc hd short enough = absurd (omega arith)
  torn_step (suc fuel) (b ∷ bs) offset c q kind sequence n crc hd short enough =
      elim (Bool-cases (ltb (length (b ∷ bs)) 28)) [
        | inl tiny ↦ rw tiny
        | inr large ↦
            rw (large, hd (ground (arith, large)), lt→ltb _ _ short, or_true (ltb (sb % 2 ^ 32) n))
      ]

  -- A proper prefix of a frame.
  cut_frame :
      (kind : FrameKind) (sequence : ℕ) (payload t y z : Bytes) (offset : ℕ) (c : Committed)
      (q : Pending)
      → sequence < 2 ^ 64
      → length payload < 2 ^ 32
      → t ++ y ≡ encode_wal_frame p kind sequence payload ++ z
      → length t < length (encode_wal_frame p kind sequence payload)
      → Scans p segment_id states sb t offset c q (ok (c, tear t q))
  cut_frame kind sequence payload t y z offset c q hs hp e short fuel enough =
      torn_step fuel t offset c q kind sequence (length payload) (p.checksum payload)
        (λ long.
          rw
            (sym (take-append_le 28 t y long)
              ∙ ap (take 28) e
              ∙ frame_head p kind sequence payload z)
            (decode_wal_frame_header-frame_header p laws kind sequence payload hs hp))
        (omega (arith, length-encode_wal_frame p kind sequence payload)) enough

  module _ (sb_fits : sb < 2 ^ 32) where
    -- A proper prefix of the data frames of a group and its marker publishes nothing.
    pub torn_data :
        (rs : List (Prepared p.Envelope)) (kind : FrameKind) (last : ℕ) (payload t : Bytes) (x : ℕ)
        (back : Bytes) (offset : ℕ) (c : Committed) (q : Pending)
        → All (IsStored p sb) rs
        → Fresh c.seen_ids q.ids rs
        → last < 2 ^ 64
        → length payload < 2 ^ 32
        → t ++ (x ∷ back) ≡ group_data rs ++ encode_wal_frame p kind last payload
        → Scans p segment_id states sb t offset c q (ok (c, tear t q))
    torn_data [] kind last payload t x back offset c q stored fresh hl hp e =
        cut_frame kind last payload t (x ∷ back) [] offset c q hl hp (e ∙ sym (append-nil _))
          (omega (arith, ap length e, length-append t (x ∷ back)))
    torn_data (r ∷ rs) kind last payload t x back offset c q stored fresh hl hp e =
        let s : IsStored p sb r = stored.0 in
        let (body, em, ef) = payload_of p sb r s.encoded in
        let size : length r.frame ≡ 28 + length body =
          ap length ef ∙ length-encode_wal_frame p data_frame r.item.id body in
        let rest : Bytes = group_data rs ++ encode_wal_frame p kind last payload in
        let whole : t ++ (x ∷ back) ≡ r.frame ++ rest =
          e ∙ append_assoc r.frame (group_data rs) (encode_wal_frame p kind last payload) in
        elim (Bool-cases (ltb (length t) (length r.frame))) [
          | inl short ↦
              cut_frame data_frame r.item.id body t (x ∷ back) rest offset c q s.id_lt
                (omega (arith, s.fits)) (rw (← ef) whole) (rw (← ef) (ltb→lt _ _ short))
          | inr long ↦
              let (u, et, eu) =
                append_split r.frame rest t (x ∷ back) (sym whole) (ground (arith, long)) in
              let later : Scans p segment_id states sb u (offset + length r.frame) c
                  (joined_one q offset r) (ok (c, tear u (joined_one q offset r))) =
                torn_data rs kind last payload u x back (offset + length r.frame) c
                  (joined_one q offset r) stored.1 fresh.2 hl hp (sym eu) in
              let long_enough : 0 < length t =
                omega (arith, size, ap length et, length-append r.frame u) in
              rw (tear_pos t q long_enough) (
                subst (λ (v : Bytes). Scans p segment_id states sb v offset c q (ok (c, true)))
                  (sym et)
                  (scan_record p segment_id states sb laws sb_fits r u offset c q (ok (c, true)) s
                    fresh.0 fresh.1 (rw (tear_joined u q offset r) at later)))
        ]
