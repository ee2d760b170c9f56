-- ===== src/Wal/Recovery/Active.antt =====
-- runtime/go/internal/spool/wal_recovery.go: what `recoverSegment` publishes: the active records and
-- the next identifier.
use node_flow.Prelude.{
  ℕ, ◌+◌, ◌%◌, ◌^◌, ◌≤◌, ◌<◌, ◌≡◌, refl, ap, ◌∙◌, Option, none, some, List, [], ◌∷◌, length, arith,
  All, lookup, lookup-insert, if◌then◌else◌, ◌==◌, leb,
}
use node_flow.Wal.Format.{Platform, StateEntry, retry, ack, quarantine}
use node_flow.Wal.Group.{Prepared, encode_group}
use node_flow.Wal.Recovery.{
  RecordMetadata, RecoveredFrame, Committed, metadata_of, settle, publish_frame, publish,
}
use node_flow.Wal.Recovery.Groups.{framed, frames_at, replay_group}
use node_flow.Wal.Recovery.Crash.{replay_groups}

-- The attempts of a record that is still to be delivered, by its last checkpoint entry.
abbrev pub unsettled : Option StateEntry → Option ℕ
unsettled none = some 0
unsettled (some s) = elim s.kind [ retry ↦ some s.attempts | ack ↦ none | quarantine ↦ none ]

module _ (p : Platform) (segment_id : ℕ) (states : List (ℕ × StateEntry)) where
  abbrev settled_metadata :
      RecoveredFrame → Option ℕ → Option RecordMetadata → Option RecordMetadata
  settled_metadata f none found = found
  settled_metadata f (some a) found = some (metadata_of p segment_id states f a)

  -- Where the record `k` of a group lies and how often it was tried, unless it is settled.
  abbrev pub recovered_metadata :
      ℕ → ℕ → List (Prepared p.Envelope) → Option RecordMetadata → Option RecordMetadata
  recovered_metadata k offset [] found = found
  recovered_metadata k offset (r ∷ rs) found = recovered_metadata k (offset + length r.frame) rs (
      if r.item.id == k
      then settled_metadata (framed r offset) (unsettled (lookup k states)) found
      else found)

  abbrev pub recovered_in :
      ℕ → ℕ → List (List (Prepared p.Envelope)) → Option RecordMetadata → Option RecordMetadata
  recovered_in k offset [] found = found
  recovered_in k offset (g ∷ gs) found =
      recovered_in k (offset + length (encode_group p g)) gs (recovered_metadata k offset g found)

  settle-active :
      (k : ℕ) (f : RecoveredFrame) (o : Option StateEntry) (c : Committed)
      → lookup k (settle p segment_id states f o c).active ≡ (
          if f.id == k
          then settled_metadata f (unsettled o) (lookup k c.active)
          else lookup k c.active)
  unfolding settle
  settle-active k f none c = lookup-insert f.id k _ c.active ∙ ground arith
  settle-active k f (some s) c =
      elim s.kind
        as (λ kind.
          lookup k (settle p segment_id states f (some (record s { kind = kind })) c).active ≡ (
            if f.id == k
            then settled_metadata f (unsettled (some (record s { kind = kind })))
                (lookup k c.active)
            else lookup k c.active)) [
              | retry ↦ lookup-insert f.id k _ c.active ∙ ground arith
              | ack ↦ ground arith
              | quarantine ↦ ground arith
            ]

  publish_frame-active :
      (k : ℕ) (f : RecoveredFrame) (c : Committed)
      → lookup k (publish_frame p segment_id states f c).active ≡ (
          if f.id == k
          then settled_metadata f (unsettled (lookup k states)) (lookup k c.active)
          else lookup k c.active)
  unfolding publish_frame
  publish_frame-active k f c = settle-active k f (lookup f.id states) _ ∙ ground arith

  publish-active :
      (k : ℕ) (rs : List (Prepared p.Envelope)) (offset : ℕ) (c : Committed)
      → lookup k (publish p segment_id states (frames_at offset rs) c).active
        ≡ recovered_metadata k offset rs (lookup k c.active)
  unfolding publish frames_at
  publish-active k [] offset c = refl
  publish-active k (r ∷ rs) offset c =
      publish-active k rs (offset + length r.frame) _
      ∙ ap (recovered_metadata k (offset + length r.frame) rs)
          (publish_frame-active k (framed r offset) c)

  -- Behind the replay of the groups a record is looked up as the last group that publishes it says,
  -- with its place and the attempts of its checkpoint entry; a record whose entry acknowledges or
  -- quarantines it, and one that no group has, is looked up as before.
  pub replay_groups-active :
      (k : ℕ) (gs : List (List (Prepared p.Envelope))) (offset : ℕ) (c : Committed)
      → lookup k (replay_groups p segment_id states c offset gs).active
        ≡ recovered_in k offset gs (lookup k c.active)
  unfolding replay_groups replay_group
  replay_groups-active k [] offset c = refl
  replay_groups-active k (g ∷ gs) offset c =
      replay_groups-active k gs (offset + length (encode_group p g))
        (replay_group p segment_id states c offset g)
      ∙ ap (recovered_in k (offset + length (encode_group p g)) gs) (publish-active k g offset c)

  -- Every identifier seen is below `next_id`.
  abbrev pub AreUsed : Committed → Type 0
  AreUsed c = All (λ k. k < c.next_id) c.seen_ids

  All-below : (m n : ℕ) (ks : List ℕ) → m ≤ n → All (λ k. k < m) ks → All (λ k. k < n) ks
  All-below m n [] h a = tt
  All-below m n (k ∷ ks) h a = (omega arith, All-below m n ks h a.1)

  bump-above : (k n : ℕ) → k + 1 < 2 ^ 64 → k < (if leb n k then (k + 1) % 2 ^ 64 else n)
  bump-above k n fits = ground arith

  bump-le : (k n : ℕ) → k + 1 < 2 ^ 64 → n ≤ (if leb n k then (k + 1) % 2 ^ 64 else n)
  bump-le k n fits = ground arith

  bumped :
      (f : RecoveredFrame) (c : Committed)
      → f.id + 1 < 2 ^ 64
      → AreUsed c
      → All
          (λ k. k < (if leb c.next_id f.id then (f.id + 1) % 2 ^ 64 else c.next_id))
          (f.id ∷ c.seen_ids)
  bumped f c fits used = (
    bump-above f.id c.next_id fits,
    All-below c.next_id _ c.seen_ids (bump-le f.id c.next_id fits) used,
  )

  settle-AreUsed :
      (f : RecoveredFrame) (o : Option StateEntry) (c : Committed)
      → AreUsed c
      → AreUsed (settle p segment_id states f o c)
  unfolding settle
  settle-AreUsed f none c used = used
  settle-AreUsed f (some s) c used =
      elim s.kind
        as (λ kind. AreUsed (settle p segment_id states f (some (record s { kind = kind })) c)) [
          | retry ↦ used
          | ack ↦ used
          | quarantine ↦ used
        ]

  publish_frame-AreUsed :
      (f : RecoveredFrame) (c : Committed)
      → f.id + 1 < 2 ^ 64
      → AreUsed c
      → AreUsed (publish_frame p segment_id states f c)
  unfolding publish_frame
  publish_frame-AreUsed f c fits used =
      settle-AreUsed f (lookup f.id states) _ (bumped f c fits used)

  publish-AreUsed :
      (rs : List (Prepared p.Envelope)) (offset : ℕ) (c : Committed)
      → All (λ r. r.item.id + 1 < 2 ^ 64) rs
      → AreUsed c
      → AreUsed (publish p segment_id states (frames_at offset rs) c)
  unfolding publish frames_at
  publish-AreUsed [] offset c fits used = used
  publish-AreUsed (r ∷ rs) offset c fits used =
      publish-AreUsed rs (offset + length r.frame) _ fits.1
        (publish_frame-AreUsed (framed r offset) c fits.0 used)

  -- If every identifier seen before is below `next_id`, and the identifiers of the groups are below
  -- 2^64 - 1, then every identifier seen behind the replay of the groups is below `next_id`: the
  -- recovered log gives out none that it has used.
  pub replay_groups-AreUsed :
      (gs : List (List (Prepared p.Envelope))) (offset : ℕ) (c : Committed)
      → All (All (λ r. r.item.id + 1 < 2 ^ 64)) gs
      → AreUsed c
      → AreUsed (replay_groups p segment_id states c offset gs)
  unfolding replay_groups replay_group
  replay_groups-AreUsed [] offset c fits used = used
  replay_groups-AreUsed (g ∷ gs) offset c fits used =
      replay_groups-AreUsed gs (offset + length (encode_group p g))
        (replay_group p segment_id states c offset g) fits.1
        (publish-AreUsed g offset c fits.0 used)
