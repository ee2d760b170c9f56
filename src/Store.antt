-- ===== src/Store.antt =====
-- runtime/go/internal/spool/spool.go: the legacy store, one file to a record.
--
-- A file's name is the identifier in 20 digits and the attempts in 5: the number that the digits
-- spell. The quarantine directory is the list of the files moved there, by their former names.
pub mod Codec
pub mod Books
pub mod Limits
pub mod Runs
pub mod ReadBack
mod Examples
use node_flow.Prelude.{
  ℕ, zero, suc, ◌+◌, ◌-◌, ◌*◌, ◌%◌, ◌^◌, Bool, true, false, not, ◌&&◌, ◌||◌, Option, none, some,
  List, [], ◌∷◌, ◌++◌, length, ltb, leb, ◌==◌, if◌then◌else◌, Result, ok, err, lookup, insert,
  erase, ℤ, is_positive,
}
use node_flow.Bytes.{Bytes}
use node_flow.Wal.Format.{Platform, Record}
use node_flow.Store.Codec.{encode_record, decode_record}

pub record Metadata : Type 0 where
  pub attempts : ℕ
  pub allocated : ℕ

pub record Dead : Type 0 where
  pub name : ℕ
  pub allocated : ℕ

pub record Store : Type 0 where
  pub max_bytes : ℕ
  pub next_id : ℕ
  pub used_bytes : ℕ
  pub active : List (ℕ × Metadata)
  pub ids : List ℕ
  pub quarantined : ℕ
  pub files : List (ℕ × Bytes)
  pub dead : List Dead

pub data StoreError : Type 0 where
  cancelled encode_failed write_failed full close_failed rename_failed : StoreError
  remove_failed sync_failed read_failed corrupt_record retry_exceeded : StoreError

abbrev pub active_filename : ℕ → ℕ → ℕ
active_filename id attempts = id * 100000 + attempts

-- What the clock and the file system answer to an append. `writes` is that the file was created,
-- written, synced and measured.
pub record AppendIo : Type 0 where
  pub cancels : Bool
  pub now : ℤ
  pub writes : Bool
  pub allocated : ℕ
  pub closes : Bool
  pub renames : Bool
  pub dir_synced : Bool

unfoldable pub still_listed : List (ℕ × Metadata) → List ℕ → List ℕ
still_listed active [] = []
still_listed active (k ∷ ks) =
    let rest = still_listed active ks in elim (lookup k active) [ none ↦ rest | some m ↦ k ∷ rest ]

unfoldable pub compact_index : Store → Store
compact_index s =
    if ltb (length s.ids) 1024 || leb (length s.ids) (length s.active * 2)
    then s
    else record s { ids = still_listed s.active s.ids }

-- `sort.Search` on the ascending identifiers: those from the first one above `after` on.
unfoldable pub search : ℕ → List ℕ → List ℕ
search after [] = []
search after (k ∷ ks) = if ltb after k then k ∷ ks else search after ks

-- `quarantineLocked`, where `renames` is the answer to the rename of `quarantinePathLocked`.
unfoldable pub quarantine_locked : Bool → ℕ → Store → Result StoreError (Unit {0}) × Store
quarantine_locked renames k s = elim (lookup k s.active) [
  | none ↦ (ok tt, s)
  | some m ↦
      let name = active_filename k m.attempts in
      if not renames then (err rename_failed, s) else (
        ok tt,
        record s {
          active = erase k s.active;
          quarantined = s.quarantined + 1;
          files = erase name s.files;
          dead = record { name = name; allocated = m.allocated } ∷ s.dead;
        },
      )
]

unfoldable pub acknowledge_loop :
    (ℕ → Bool) → List ℕ → Bool → Store → Result StoreError Bool × Store
acknowledge_loop removes [] changed s = (ok changed, s)
acknowledge_loop removes (k ∷ ks) changed s = elim (lookup k s.active) [
  | none ↦ acknowledge_loop removes ks changed s
  | some m ↦ elim (removes k) [
    | false ↦ (err remove_failed, s)
    | true ↦ acknowledge_loop removes ks true (record s {
      active = erase k s.active;
      used_bytes = s.used_bytes - m.allocated;
      files = erase (active_filename k m.attempts) s.files;
    })
  ]
]

abbrev pub synced : Bool → Result StoreError (Unit {0})
synced true = ok tt
synced false = err sync_failed

unfoldable pub acknowledge :
    (ℕ → Bool) → Bool → List ℕ → Store → Result StoreError (Unit {0}) × Store
acknowledge removes dir_synced ks s =
    let done = acknowledge_loop removes ks false s in
    elim (done.0) [
      | err e ↦ (err e, done.1)
      | ok false ↦ (ok tt, done.1)
      | ok true ↦ (synced dir_synced, compact_index (done.1))
    ]

-- The file under its next name.
abbrev pub rename_file : ℕ → ℕ → List (ℕ × Bytes) → List (ℕ × Bytes)
rename_file old new files = elim (lookup old files) [
  | none ↦ files
  | some b ↦ insert new b (erase old files)
]

unfoldable pub mark_retry_loop : (ℕ → Bool) → List ℕ → Bool → Store → Result StoreError Bool × Store
mark_retry_loop renames [] changed s = (ok changed, s)
mark_retry_loop renames (k ∷ ks) changed s = elim (lookup k s.active) [
  | none ↦ mark_retry_loop renames ks changed s
  | some m ↦ elim (ltb 99999 (m.attempts + 1)) [
    | true ↦ (err retry_exceeded, s)
    | false ↦ elim (renames k) [
      | false ↦ (err rename_failed, s)
      | true ↦ mark_retry_loop renames ks true (record s {
        active = insert k (record m { attempts = m.attempts + 1 }) s.active;
        files =
            rename_file (active_filename k m.attempts) (active_filename k (m.attempts + 1)) s.files;
      })
    ]
  ]
]

-- The same loop with the attempts that it writes into the caller's records.
unfoldable pub mark_records :
    {E : Type 0}
    → (ℕ → Bool)
    → List (Record E)
    → Bool
    → Store
    → Result StoreError Bool × List (Record E) × Store
mark_records renames [] changed s = (ok changed, [], s)
mark_records renames (r ∷ rs) changed s = elim (lookup r.id s.active) [
  | none ↦ let later = mark_records renames rs changed s in (later.0, r ∷ later.1, later.2)
  | some m ↦ elim (ltb 99999 (m.attempts + 1)) [
    | true ↦ (err retry_exceeded, r ∷ rs, s)
    | false ↦ elim (renames r.id) [
      | false ↦ (err rename_failed, r ∷ rs, s)
      | true ↦
          let later = mark_records renames rs true (record s {
            active = insert r.id (record m { attempts = m.attempts + 1 }) s.active;
            files =
                rename_file (active_filename r.id m.attempts)
                  (active_filename r.id (m.attempts + 1)) s.files;
          }) in
          (later.0, record r { attempts = m.attempts + 1 } ∷ later.1, later.2)
    ]
  ]
]

unfoldable pub mark_retry :
    (ℕ → Bool) → Bool → List ℕ → Store → Result StoreError (Unit {0}) × Store
mark_retry renames dir_synced ks s =
    let done = mark_retry_loop renames ks false s in
    elim (done.0) [
      | err e ↦ (err e, done.1)
      | ok false ↦ (ok tt, done.1)
      | ok true ↦ (synced dir_synced, done.1)
    ]

unfoldable pub quarantine_loop : (ℕ → Bool) → List ℕ → Store → Result StoreError (Unit {0}) × Store
quarantine_loop renames [] s = (ok tt, s)
quarantine_loop renames (k ∷ ks) s =
    let done = quarantine_locked (renames k) k s in
    elim (done.0) [ err e ↦ done | ok _ ↦ quarantine_loop renames ks (done.1) ]

-- `dir_synced` is the answer for both directories.
unfoldable pub quarantine :
    (ℕ → Bool) → Bool → List ℕ → Store → Result StoreError (Unit {0}) × Store
quarantine renames dir_synced ks s =
    let done = quarantine_loop renames ks s in
    elim (done.0) [ err e ↦ done | ok _ ↦ (synced dir_synced, compact_index (done.1)) ]

unfoldable pub ready : Store → Result StoreError (Unit {0})
ready s = if leb s.max_bytes s.used_bytes then err full else ok tt

module _ (p : Platform) where
  -- The store behind the rename of the new file.
  abbrev pub installed : ℕ → ℕ → Bytes → Store → Store
  installed id allocated encoded s = record s {
    active = insert id (record { attempts = 0; allocated = allocated }) s.active;
    ids = s.ids ++ (id ∷ []);
    used_bytes = s.used_bytes + allocated;
    files = insert (active_filename id 0) encoded s.files;
  }

  abbrev pub new_record : AppendIo → p.Envelope → Store → Record p.Envelope
  new_record io envelope s = record {
    id = s.next_id;
    attempts = 0;
    enqueued_at = io.now;
    envelope = envelope;
  }

  unfoldable pub append_encoded :
      AppendIo → Record p.Envelope → Bytes → Store → Result StoreError (Record p.Envelope) × Store
  append_encoded io r encoded s =
      if not io.writes
      then (err write_failed, s)
      else if ltb s.max_bytes (s.used_bytes + io.allocated)
      then (err full, s)
      else if not io.closes
      then (err close_failed, s)
      else if not io.renames
      then (err rename_failed, s)
      else (if io.dir_synced then ok r else err sync_failed, installed r.id io.allocated encoded s)

  unfoldable pub append :
      AppendIo → p.Envelope → Store → Result StoreError (Record p.Envelope) × Store
  append io envelope s =
      if io.cancels
      then (err cancelled, s)
      else (let s' : Store = record s { next_id = (s.next_id + 1) % 2 ^ 64 } in
          let r : Record p.Envelope = new_record io envelope s in
          elim (encode_record p r) [
            | none ↦ (err encode_failed, s')
            | some encoded ↦ append_encoded io r encoded s'
          ])

  -- `read`; `opens` says whether the file was read.
  unfoldable pub read : Bool → ℕ → Metadata → Store → Result StoreError (Record p.Envelope)
  read opens k m s =
      if not opens then err read_failed else (elim (lookup (active_filename k m.attempts) s.files) [
        | none ↦ err read_failed
        | some b ↦ elim (decode_record p b) [
          | err e ↦ err corrupt_record
          | ok r ↦
              if not (r.id == k)
              then err corrupt_record
              else ok (record r { attempts = m.attempts })
        ]
      ])

  -- The triples that `NextAfter` returns: nothing left, a record, an error on a record, an error.
  pub data Next : Type 0 where
    nothing : Next
    found : Record p.Envelope → Next
    broken : ℕ → StoreError → Next
    failed : StoreError → Next

  unfoldable pub next_error : Bool → ℕ → StoreError → Store → Next × Store
  next_error renames k corrupt_record s =
      let done = quarantine_locked renames k s in
      elim (done.0) [
        | err e ↦ (failed e, done.1)
        | ok _ ↦ (broken k corrupt_record, compact_index (done.1))
      ]
  next_error renames k e s = (broken k e, s)

  unfoldable pub next_entry : Bool → Bool → ℕ → Metadata → Store → Next × Store
  next_entry opens renames k m s = elim (read opens k m s) [
    | ok r ↦ (found r, s)
    | err e ↦ next_error renames k e s
  ]

  unfoldable pub next_loop : Bool → Bool → List ℕ → Store → Next × Store
  next_loop opens renames [] s = (nothing, s)
  next_loop opens renames (k ∷ ks) s = elim (lookup k s.active) [
    | none ↦ next_loop opens renames ks s
    | some m ↦ next_entry opens renames k m s
  ]

  -- A corrupt record is reported as such whether or not its move is synced.
  unfoldable pub next_after : Bool → Bool → ℕ → Store → Next × Store
  next_after opens renames after s = next_loop opens renames (search after s.ids) s
