-- ===== src/Wal/Recovery/Scan.antt =====
-- One round of the recovery loop, on bytes that begin with a frame.
use node_flow.Prelude.{
  ℕ, zero, suc, ◌+◌, ◌%◌, ◌^◌, ◌≤◌, ◌<◌, ◌≡◌, refl, ap, ◌∙◌, Bool, List, [], ◌∷◌, ◌++◌, length,
  take, drop, slice, length-append, append_assoc, le→ltb, ==_self, Result, ok, arith, take_exact,
  drop_exact, slice_exact,
}
use node_flow.Bytes.{Bytes}
use node_flow.Wal.Format.{
  Platform, Laws, FrameKind, StateEntry, frame_header, encode_wal_frame, decode_wal_frame_header,
}
use node_flow.Wal.Format.RoundTrip.{
  decode_wal_frame_header-frame_header, length-frame_header, length-encode_wal_frame,
}
use node_flow.Wal.Recovery.{RecoveryError, Committed, Pending, accept_frame, scan}

module _ (p : Platform) where
  pub frame_head :
      (kind : FrameKind) (sequence : ℕ) (payload tail : Bytes)
      → take 28 (encode_wal_frame p kind sequence payload ++ tail)
        ≡ frame_header p kind sequence payload
  unfolding encode_wal_frame
  frame_head kind sequence payload tail =
      rw (append_assoc (frame_header p kind sequence payload) payload tail) (
        take_exact 28 (frame_header p kind sequence payload) (payload ++ tail)
          (length-frame_header p kind sequence payload))

  frame_payload :
      (kind : FrameKind) (sequence : ℕ) (payload tail : Bytes)
      → slice 28 (28 + length payload) (encode_wal_frame p kind sequence payload ++ tail) ≡ payload
  unfolding encode_wal_frame
  frame_payload kind sequence payload tail =
      rw (append_assoc (frame_header p kind sequence payload) payload tail) (
        slice_exact 28 (length payload) (frame_header p kind sequence payload) payload tail
          (length-frame_header p kind sequence payload) refl)

module _ (p : Platform) (segment_id : ℕ) (states : List (ℕ × StateEntry)) (sb : ℕ) where
  -- On enough fuel the loop over `rest` answers `r`.
  abbrev pub Scans :
      Bytes → ℕ → Committed → Pending → Result RecoveryError (Committed × Bool) → Type 0
  Scans rest offset c q r =
      (fuel : ℕ) → length rest ≤ fuel → scan p segment_id states fuel sb rest offset c q ≡ r

  scan_step :
      (fuel : ℕ) (rest : Bytes) (offset : ℕ) (c : Committed) (q : Pending) (kind : FrameKind)
      (sequence n crc : ℕ) (c' : Committed) (q' : Pending)
      → 28 ≤ length rest
      → decode_wal_frame_header p (take 28 rest) ≡ ok (kind, sequence, n, crc)
      → n ≤ sb % 2 ^ 32
      → 28 + n ≤ length rest
      → p.checksum (slice 28 (28 + n) rest) ≡ crc
      → accept_frame p segment_id states kind sequence
          (take (28 + n) rest)
          (slice 28 (28 + n) rest)
          offset
          c
          q
        ≡ ok (c', q')
      → scan p segment_id states (suc fuel) sb rest offset c q
        ≡ scan p segment_id states fuel sb (drop (28 + n) rest) (offset + (28 + n)) c' q'
  unfolding scan
  scan_step fuel [] offset c q kind sequence n crc c' q' h28 hd hn hr hx ha = absurd (omega arith)
  scan_step fuel (b ∷ bs) offset c q kind sequence n crc c' q' h28 hd hn hr hx ha =
      rw (le→ltb _ _ h28, hd, le→ltb _ _ hn, le→ltb _ _ hr, hx, ==_self, ha)

  module _ (laws : Laws p) (sb_fits : sb < 2 ^ 32) where
    -- A whole frame at the front is read, whatever follows it.
    pub frame_step :
        (kind : FrameKind) (sequence : ℕ) (payload tail : Bytes) (offset : ℕ) (c : Committed)
        (q : Pending) (c' : Committed) (q' : Pending) (r : Result RecoveryError (Committed × Bool))
        → sequence < 2 ^ 64
        → length payload ≤ sb
        → accept_frame p segment_id states kind sequence
            (encode_wal_frame p kind sequence payload)
            payload
            offset
            c
            q
          ≡ ok (c', q')
        → Scans tail (offset + length (encode_wal_frame p kind sequence payload)) c' q' r
        → Scans (encode_wal_frame p kind sequence payload ++ tail) offset c q r
    frame_step kind sequence payload tail offset c q c' q' r hs hp ha next zero enough = absurd (
        omega (
          arith,
          length-append (encode_wal_frame p kind sequence payload) tail,
          length-encode_wal_frame p kind sequence payload,
        ))
    frame_step kind sequence payload tail offset c q c' q' r hs hp ha next (suc fuel) enough =
        let frame : Bytes = encode_wal_frame p kind sequence payload in
        let head : Bytes = frame_header p kind sequence payload in
        let size : length frame ≡ 28 + length payload =
          length-encode_wal_frame p kind sequence payload in
        let total : length (frame ++ tail) ≡ length frame + length tail =
          length-append frame tail in
        let cut : take (28 + length payload) (frame ++ tail) ≡ frame =
          take_exact _ frame tail size in
        let left : drop (28 + length payload) (frame ++ tail) ≡ tail =
          drop_exact _ frame tail size in
        let inner : slice 28 (28 + length payload) (frame ++ tail) ≡ payload =
          frame_payload p kind sequence payload tail in
        scan_step fuel (frame ++ tail) offset c q kind sequence (length payload)
          (p.checksum payload) c' q' (omega arith)
          (rw (frame_head p kind sequence payload tail)
            (decode_wal_frame_header-frame_header p laws kind sequence payload hs (omega arith)))
          (omega arith) (omega arith) (ap p.checksum inner) (rw (cut, inner) ha)
        ∙ rw (left, ← size) (next fuel (omega arith))
