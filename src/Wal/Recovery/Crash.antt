-- ===== src/Wal/Recovery/Crash.antt =====
-- runtime/go/internal/spool/wal_recovery.go: theorems on `recoverSegment`.
use node_flow.Prelude.{
  ℕ, zero, suc, ◌+◌, ◌-◌, ◌^◌, ◌≤◌, ◌<◌, ◌≡◌, refl, sym, ap, ◌∙◌, Bool, true, false, List, [], ◌∷◌,
  ◌++◌, length, take, length-append, append_assoc, append-nil, take_exact, drop_exact, le→ltb,
  Result, ok, err, arith,
}
use native.Mathlib.Nat.{add-zero, add_assoc}
use node_flow.Bytes.{Bytes}
use node_flow.Wal.Format.{
  Platform, Laws, commit_frame, StateEntry, encode_wal_segment_header, commit_payload,
}
use node_flow.Wal.Format.RoundTrip.{
  decode_wal_segment_header-encode, length-encode_wal_segment_header, length-commit_payload,
}
use node_flow.Wal.Group.{Prepared, encode_group, group_last, group_commit}
use node_flow.Wal.Recovery.{
  RecoveryError, incomplete_non_final_tail, Committed, no_pending, RecoveredFrame, settle,
  publish_frame, publish, scan, truncate_uncommitted_tail, finish_segment, recover_segment,
}
use node_flow.Wal.Recovery.Scan.{Scans}
use node_flow.Wal.Recovery.Groups.{IsGroup, replay_group, frames_at, scan_group, encode_group_lem}
use node_flow.Wal.Recovery.Torn.{tear, torn_data}

module _ (p : Platform) where
  abbrev pub groups_data : List (List (Prepared p.Envelope)) → Bytes
  groups_data [] = []
  groups_data (g ∷ gs) = encode_group p g ++ groups_data gs

  -- `seenIDs` behind a group.
  abbrev pub seen_after : List (Prepared p.Envelope) → List ℕ → List ℕ
  seen_after [] seen = seen
  seen_after (r ∷ rs) seen = seen_after rs (r.item.id ∷ seen)

  abbrev pub seen_after_all : List (List (Prepared p.Envelope)) → List ℕ → List ℕ
  seen_after_all [] seen = seen
  seen_after_all (g ∷ gs) seen = seen_after_all gs (seen_after g seen)

  -- Groups that may follow one another in a segment.
  abbrev pub AreGroups : ℕ → List ℕ → List (List (Prepared p.Envelope)) → Type 0
  AreGroups sb seen [] = Unit
  AreGroups sb seen (g ∷ gs) = IsGroup p sb seen g × AreGroups sb (seen_after g seen) gs

  module _ (segment_id : ℕ) (states : List (ℕ × StateEntry)) where
    unfoldable pub replay_groups : Committed → ℕ → List (List (Prepared p.Envelope)) → Committed
    replay_groups c offset [] = c
    replay_groups c offset (g ∷ gs) =
        replay_groups (replay_group p segment_id states c offset g)
          (offset + length (encode_group p g)) gs

    publish_frame-seen :
        (f : RecoveredFrame) (c : Committed)
        → (publish_frame p segment_id states f c).seen_ids ≡ f.id ∷ c.seen_ids
    unfolding publish_frame settle
    publish_frame-seen f c = ground arith

    publish-seen :
        (rs : List (Prepared p.Envelope)) (offset : ℕ) (c : Committed)
        → (publish p segment_id states (frames_at offset rs) c).seen_ids ≡ seen_after rs c.seen_ids
    unfolding publish frames_at
    publish-seen [] offset c = refl
    publish-seen (r ∷ rs) offset c =
        publish-seen rs (offset + length r.frame) _ ∙ ap (seen_after rs) (publish_frame-seen _ c)

    replay_group-seen :
        (rs : List (Prepared p.Envelope)) (offset : ℕ) (c : Committed)
        → (replay_group p segment_id states c offset rs).seen_ids ≡ seen_after rs c.seen_ids
    unfolding replay_group
    replay_group-seen rs offset c = publish-seen rs offset c

    replay_groups-seen :
        (gs : List (List (Prepared p.Envelope))) (offset : ℕ) (c : Committed)
        → (replay_groups c offset gs).seen_ids ≡ seen_after_all gs c.seen_ids
    unfolding replay_groups
    replay_groups-seen [] offset c = refl
    replay_groups-seen (g ∷ gs) offset c =
        replay_groups-seen gs (offset + length (encode_group p g)) _
        ∙ ap (seen_after_all gs) (replay_group-seen g offset c)

    replay_groups-offset :
        (gs : List (List (Prepared p.Envelope))) (offset : ℕ) (c : Committed)
        → c.committed_offset ≡ offset
        → (replay_groups c offset gs).committed_offset ≡ offset + length (groups_data gs)
    unfolding replay_groups replay_group
    replay_groups-offset [] offset c e = omega arith
    replay_groups-offset (g ∷ gs) offset c e = omega (
      arith,
      replay_groups-offset gs (offset + length (encode_group p g))
          (replay_group p segment_id states c offset g) refl,
      length-append (encode_group p g) (groups_data gs),
    )

  module _ (laws : Laws p) (segment_id : ℕ) (states : List (ℕ × StateEntry)) (sb : ℕ)
      (sb_fits : sb < 2 ^ 32) (sb_min : 28 ≤ sb) where
    scan_groups :
        (gs : List (List (Prepared p.Envelope))) (tail : Bytes) (offset : ℕ) (c : Committed)
        (r : Result RecoveryError (Committed × Bool))
        → AreGroups sb c.seen_ids gs
        → Scans p segment_id states sb tail
            (offset + length (groups_data gs))
            (replay_groups segment_id states c offset gs)
            no_pending
            r
        → Scans p segment_id states sb (groups_data gs ++ tail) offset c no_pending r
    unfolding replay_groups
    scan_groups [] tail offset c r ok_groups next = rw add-zero at next
    scan_groups (g ∷ gs) tail offset c r ok_groups next =
        rw (append_assoc (encode_group p g) (groups_data gs) tail) (
          scan_group p segment_id states sb laws sb_fits sb_min g (groups_data gs ++ tail) offset c
            r ok_groups.0
            (scan_groups gs tail (offset + length (encode_group p g))
              (replay_group p segment_id states c offset g) r
              (rw (replay_group-seen segment_id states g offset c) ok_groups.1)
              (rw
                (
                  add_assoc offset (length (encode_group p g)) (length (groups_data gs)),
                  ← length-append (encode_group p g) (groups_data gs),
                )
                next)))

    torn_group :
        (rs : List (Prepared p.Envelope)) (t : Bytes) (x : ℕ) (back : Bytes) (offset : ℕ)
        (c : Committed)
        → IsGroup p sb c.seen_ids rs
        → t ++ (x ∷ back) ≡ encode_group p rs
        → Scans p segment_id states sb t offset c no_pending (ok (c, tear t no_pending))
    torn_group rs t x back offset c g e =
        torn_data p laws segment_id states sb sb_fits rs commit_frame (group_last rs)
          (commit_payload p (group_commit p rs)) t x back offset c no_pending g.stored g.fresh
          g.last_lt (omega (arith, length-commit_payload p (group_commit p rs)))
          (e ∙ encode_group_lem p rs)

    cut_tail :
        (kept : Bytes) (b : ℕ) (bs : Bytes) (offset : ℕ)
        → offset ≡ length kept
        → truncate_uncommitted_tail p true true (kept ++ (b ∷ bs)) offset
          ≡ ok (suc (length bs), kept)
    unfolding truncate_uncommitted_tail
    cut_tail kept b bs offset e =
        let cut : length (kept ++ (b ∷ bs)) - offset ≡ suc (length bs) =
          omega (arith, e, length-append kept (b ∷ bs)) in
        let left : take offset (kept ++ (b ∷ bs)) ≡ kept =
          take_exact offset kept (b ∷ bs) (sym e) in
        ground (arith, cut, left)

    finish_torn :
        (t kept : Bytes) (c : Committed)
        → c.committed_offset ≡ length kept
        → finish_segment p true true (kept ++ t) (ok (c, tear t no_pending))
          ≡ ok (c, length t, kept)
    unfolding finish_segment
    finish_torn [] kept c e = rw (append-nil kept)
    finish_torn (b ∷ bs) kept c e = rw (cut_tail kept b bs c.committed_offset e, finish_segment)

    -- The part of `recoverSegment` behind the header, for a header that fits the segment.
    open_segment :
        (repaired is_last : Bool) (created : ℕ) (body : Bytes) (c : Committed)
        → segment_id < 2 ^ 64
        → created < 2 ^ 64
        → let file = encode_wal_segment_header p segment_id created ++ body in
          recover_segment p segment_id states repaired is_last sb file c
          ≡ finish_segment p repaired is_last file (
              scan p segment_id states
                (length file)
                sb
                body
                32
                (record c { committed_offset = 32 })
                no_pending)
    unfolding recover_segment
    open_segment repaired is_last created body c hid ht =
        let header : Bytes = encode_wal_segment_header p segment_id created in
        let size : length header ≡ 32 = length-encode_wal_segment_header p segment_id created in
        let long : 32 ≤ length (header ++ body) = omega (arith, size, length-append header body) in
        rw (
          le→ltb _ _ long,
          take_exact 32 header body size,
          decode_wal_segment_header-encode p laws segment_id created hid ht,
          drop_exact 32 header body size,
        )

    recovered_to :
        (repaired is_last : Bool) (created : ℕ) (gs : List (List (Prepared p.Envelope))) (t : Bytes)
        (c : Committed) (r : Result RecoveryError (Committed × Bool))
        → segment_id < 2 ^ 64
        → created < 2 ^ 64
        → Scans p segment_id states sb
            (groups_data gs ++ t)
            32
            (record c { committed_offset = 32 })
            no_pending
            r
        → let file = (encode_wal_segment_header p segment_id created ++ groups_data gs) ++ t in
          recover_segment p segment_id states repaired is_last sb file c
          ≡ finish_segment p repaired is_last file r
    recovered_to repaired is_last created gs t c r hid ht body =
        let header : Bytes = encode_wal_segment_header p segment_id created in
        let rest : Bytes = groups_data gs ++ t in
        rw (append_assoc header (groups_data gs) t) (
          open_segment repaired is_last created rest c hid ht
          ∙ ap (finish_segment p repaired is_last (header ++ rest))
              (body (length (header ++ rest)) (omega (arith, length-append header rest))))

    scan_torn :
        (gs : List (List (Prepared p.Envelope))) (rs : List (Prepared p.Envelope)) (t : Bytes)
        (x : ℕ) (back : Bytes) (c : Committed)
        → AreGroups sb c.seen_ids gs
        → IsGroup p sb (seen_after_all gs c.seen_ids) rs
        → t ++ (x ∷ back) ≡ encode_group p rs
        → let c₀ = record c { committed_offset = 32 } in
          Scans p segment_id states sb
            (groups_data gs ++ t)
            32
            c₀
            no_pending
            (ok (replay_groups segment_id states c₀ 32 gs, tear t no_pending))
    scan_torn gs rs t x back c good g e =
        let c₀ : Committed = record c { committed_offset = 32 } in
        scan_groups gs t 32 c₀ _ good (
          torn_group rs t x back (32 + length (groups_data gs)) _
            (rw (replay_groups-seen segment_id states gs 32 c₀) g) e)

    kept_size :
        (created : ℕ) (gs : List (List (Prepared p.Envelope))) (c : Committed)
        → (replay_groups segment_id states
            (record c { committed_offset = 32 })
            32
            gs).committed_offset
          ≡ length (encode_wal_segment_header p segment_id created ++ groups_data gs)
    kept_size created gs c = omega (
      arith,
      replay_groups-offset segment_id states gs 32 (record c { committed_offset = 32 }) refl,
      length-append (encode_wal_segment_header p segment_id created) (groups_data gs),
      length-encode_wal_segment_header p segment_id created,
    )

    scan_end :
        (offset : ℕ) (c : Committed)
        → Scans p segment_id states sb [] offset c no_pending (ok (c, false))
    unfolding scan
    scan_end offset c zero enough = refl
    scan_end offset c (suc fuel) enough = refl

    finish_early :
        (repaired : Bool) (t file : Bytes) (c : Committed)
        → 0 < length t
        → finish_segment p repaired false file (ok (c, tear t no_pending))
          ≡ err incomplete_non_final_tail
    unfolding finish_segment truncate_uncommitted_tail
    finish_early repaired [] file c h = absurd (omega arith)
    finish_early repaired (b ∷ bs) file c h = refl

    -- A crash while a group is being appended loses that group alone. Let the last segment's file
    -- hold its header, whole groups as `commitGroup` writes them, with identifiers that are new and
    -- sizes that fit, and a proper prefix of one more such group; let the file system repair the
    -- file. Then the recovery publishes every whole group, cuts off exactly the bytes of the torn
    -- one, which may be none, and leaves the header and the whole groups on disk.
    pub recover_segment-torn :
        (created : ℕ) (gs : List (List (Prepared p.Envelope))) (rs : List (Prepared p.Envelope))
        (t : Bytes) (x : ℕ) (back : Bytes) (c : Committed)
        → segment_id < 2 ^ 64
        → created < 2 ^ 64
        → AreGroups sb c.seen_ids gs
        → IsGroup p sb (seen_after_all gs c.seen_ids) rs
        → t ++ (x ∷ back) ≡ encode_group p rs
        → let kept = encode_wal_segment_header p segment_id created ++ groups_data gs in
          recover_segment p segment_id states true true sb (kept ++ t) c
          ≡ ok (
            replay_groups segment_id states (record c { committed_offset = 32 }) 32 gs,
            length t,
            kept,
          )
    recover_segment-torn created gs rs t x back c hid ht good g e =
        let c₁ = replay_groups segment_id states (record c { committed_offset = 32 }) 32 gs in
        recovered_to true true created gs t c _ hid ht (scan_torn gs rs t x back c good g e)
        ∙ finish_torn t (encode_wal_segment_header p segment_id created ++ groups_data gs) c₁
            (kept_size created gs c)

    -- If a segment's file holds its header and whole groups, with identifiers that are new and sizes
    -- that fit, then the recovery publishes them all and changes nothing on disk, in the last segment
    -- or before, whether or not the file system can repair a file.
    pub recover_segment-whole :
        (repaired is_last : Bool) (created : ℕ) (gs : List (List (Prepared p.Envelope)))
        (c : Committed)
        → segment_id < 2 ^ 64
        → created < 2 ^ 64
        → AreGroups sb c.seen_ids gs
        → let file = encode_wal_segment_header p segment_id created ++ groups_data gs in
          recover_segment p segment_id states repaired is_last sb file c
          ≡ ok (replay_groups segment_id states (record c { committed_offset = 32 }) 32 gs, 0, file)
    unfolding finish_segment
    recover_segment-whole repaired is_last created gs c hid ht good =
        let header : Bytes = encode_wal_segment_header p segment_id created in
        rw (append-nil (header ++ groups_data gs)) at (
          recovered_to repaired is_last created gs [] c _ hid ht
            (scan_groups gs [] 32 (record c { committed_offset = 32 }) _ good (scan_end _ _)))

    -- In a segment that is not the last one, a torn group of which one byte at least is there, behind
    -- whole groups with new identifiers and sizes that fit, is an error, not a loss.
    pub recover_segment-torn_early :
        (repaired : Bool) (created : ℕ) (gs : List (List (Prepared p.Envelope)))
        (rs : List (Prepared p.Envelope)) (t : Bytes) (x : ℕ) (back : Bytes) (c : Committed)
        → segment_id < 2 ^ 64
        → created < 2 ^ 64
        → AreGroups sb c.seen_ids gs
        → IsGroup p sb (seen_after_all gs c.seen_ids) rs
        → t ++ (x ∷ back) ≡ encode_group p rs
        → 0 < length t
        → let kept = encode_wal_segment_header p segment_id created ++ groups_data gs in
          recover_segment p segment_id states repaired false sb (kept ++ t) c
          ≡ err incomplete_non_final_tail
    recover_segment-torn_early repaired created gs rs t x back c hid ht good g e some_byte =
        recovered_to repaired false created gs t c _ hid ht (scan_torn gs rs t x back c good g e)
        ∙ finish_early repaired t _ _ some_byte
