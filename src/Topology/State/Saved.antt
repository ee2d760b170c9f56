-- ===== src/Topology/State/Saved.antt =====
-- runtime/go/internal/topology/state.go: `Save` and `OpenStateStore`. `Files` holds encoding/json and
-- CRC-32; which of the steps of the file system fail is the argument `io` of an operation, and the
-- file is what it holds before and behind.
use node_flow.Prelude.{
  ℕ, ◌≡◌, refl, ap, ◌∙◌, ◌⊎◌, inl, inr, Bool, false, not, ◌&&◌, Option, none, some, List, [], ◌∷◌,
  length, Option-cases, ==_self, if◌then◌else◌, ◌==◌, Result, ok, err,
}
use node_flow.Bytes.{Bytes}
use node_flow.Topology.{Host, Engine}
use node_flow.Topology.Batch.{Options, new}
use node_flow.Topology.State.{
  options_of, RestoreError, PersistedState, persisted_state, restore_state,
}
use node_flow.Topology.State.RoundTrip.{IsStored, IsSame, restore_state-persisted_state}

pub record Files (h : Host) : Type 0 where
  pub marshal : PersistedState h → Option Bytes
  pub unmarshal : Bytes → Option (PersistedState h)
  pub checksum : Bytes → ℕ

pub data Step : Type 0 where
  make_directory create_temporary secure write sync close install : Step
  open_directory sync_directory : Step

pub data SaveError : Type 0 where
  encode_failed : SaveError
  step_failed : Step → SaveError

pub data OpenError : Type 0 where
  find_stale_failed remove_stale_failed read_failed decode_failed : OpenError
  unsupported_version checksum_mismatch : OpenError
  not_restored : RestoreError → OpenError

unfoldable pub first_failed : (Step → Bool) → List Step → Option Step
first_failed io [] = none
first_failed io (s ∷ ss) = let rest = first_failed io ss in if io s then some s else rest

-- The steps of `Save`, up to the rename and behind it.
abbrev pub steps_before : List Step
steps_before = make_directory ∷ create_temporary ∷ secure ∷ write ∷ sync ∷ close ∷ install ∷ []

abbrev pub steps_behind : List Step
steps_behind = open_directory ∷ sync_directory ∷ []

-- What the reading of the file says; `missing` is os.ErrNotExist.
pub data Read : Type 0 where
  missing unreadable : Read
  contents : Bytes → Read

pub record OpenIo : Type 0 where
  pub glob_fails : Bool
  pub remove_fails : Bool
  pub read : Read

abbrev pub read_file : Option Bytes → Read
read_file none = missing
read_file (some b) = contents b

module _ {h : Host} (files : Files h) where
  -- Writes the encoded state: the result, and the file behind it.
  unfoldable pub write_file :
      (Step → Bool) → Bytes → Option Bytes → Result SaveError ℕ × Option Bytes
  write_file io data_bytes file = elim (first_failed io steps_before) [
    | some s ↦ (err (step_failed s), file)
    | none ↦ elim (first_failed io steps_behind) [
      | some s ↦ (err (step_failed s), some data_bytes)
      | none ↦ (ok (length data_bytes), some data_bytes)
    ]
  ]

  abbrev pub with_checksum : ℕ → PersistedState h → PersistedState h
  with_checksum c s = record s { checksum = c }

  unfoldable pub save : (Step → Bool) → Engine h → Option Bytes → Result SaveError ℕ × Option Bytes
  save io e file =
      let state = persisted_state h e in
      elim (files.marshal state) [
        | none ↦ (err encode_failed, file)
        | some canonical ↦ elim (files.marshal (with_checksum (files.checksum canonical) state)) [
          | none ↦ (err encode_failed, file)
          | some data_bytes ↦ write_file io data_bytes file
        ]
      ]

  unfoldable pub lift_restore : Result RestoreError (Engine h) → Result OpenError (Engine h)
  lift_restore (ok e) = ok e
  lift_restore (err x) = err (not_restored x)

  unfoldable pub check_sum : PersistedState h → Option Bytes → Bool
  check_sum state none = false
  check_sum state (some canonical) =
      not (state.checksum == 0) && (files.checksum canonical == state.checksum)

  unfoldable pub open_state : Options → PersistedState h → Result OpenError (Engine h)
  open_state options state =
      let restored = lift_restore (restore_state h state options) in
      if not (state.version == 1)
      then err unsupported_version
      else if check_sum state (files.marshal (with_checksum 0 state))
      then restored
      else err checksum_mismatch

  unfoldable pub open_state_store : OpenIo → Options → Result OpenError (Engine h)
  open_state_store io options =
      if io.glob_fails
      then err find_stale_failed
      else if io.remove_fails
      then err remove_stale_failed
      else (elim io.read [
        | missing ↦ ok (new h options)
        | unreadable ↦ err read_failed
        | contents b ↦ elim (files.unmarshal b) [
          | none ↦ err decode_failed
          | some state ↦ open_state options state
        ]
      ])

  abbrev pub quiet : Option Bytes → OpenIo
  quiet file = record { glob_fails = false; remove_fails = false; read = read_file file }

  -- The state is what its encoding is read as, under any checksum.
  unfoldable pub Readable : PersistedState h → Type 0
  Readable s =
      (c : ℕ) (b : Bytes)
      → files.marshal (with_checksum c s) ≡ some b
      → files.unmarshal b ≡ some (with_checksum c s)

  -- The encoding of the state does not have the checksum that stands for none.
  unfoldable pub Summed : PersistedState h → Type 0
  Summed s = (b : Bytes) → files.marshal s ≡ some b → (files.checksum b == 0) ≡ false

  unsummed : (e : Engine h) → with_checksum 0 (persisted_state h e) ≡ persisted_state h e
  unfolding persisted_state
  unsummed e = refl

  restore-with_checksum :
      (s : PersistedState h) (c : ℕ) (options : Options)
      → restore_state h (with_checksum c s) options ≡ restore_state h s options
  unfolding restore_state options_of
  restore-with_checksum s c options = refl

  persisted_state-version : (e : Engine h) → (persisted_state h e).version ≡ 1
  unfolding persisted_state
  persisted_state-version e = refl

  open_state-summed :
      (s : PersistedState h) (f : Engine h) (options : Options) (canonical : Bytes)
      → s.version ≡ 1
      → files.marshal (with_checksum 0 s) ≡ some canonical
      → (files.checksum canonical == 0) ≡ false
      → restore_state h s options ≡ ok f
      → open_state options (with_checksum (files.checksum canonical) s) ≡ ok f
  unfolding open_state check_sum lift_restore
  open_state-summed s f options canonical version first summed back =
      rw
        (
          open_state,
          first,
          check_sum,
          summed,
          ==_self (files.checksum canonical),
          restore-with_checksum s (files.checksum canonical) options,
          back,
          version,
        )
        refl

  opened :
      (e : Engine h) (options : Options) (canonical data_bytes : Bytes)
      → IsStored h e
      → Readable (persisted_state h e)
      → Summed (persisted_state h e)
      → files.marshal (persisted_state h e) ≡ some canonical
      → files.marshal (with_checksum (files.checksum canonical) (persisted_state h e))
        ≡ some data_bytes
      → (f : Engine h) × (open_state_store (quiet (some data_bytes)) options ≡ ok f)
        × IsSame h options e f
  unfolding open_state_store Readable Summed
  opened e options canonical data_bytes stored readable summed first second =
      let back = restore_state-persisted_state h e options stored in
      (
        back.0,
        rw (readable (files.checksum canonical) data_bytes second) (
            open_state-summed (persisted_state h e) (back.0) options canonical
              (persisted_state-version e) (ap (λ s. files.marshal s) (unsummed e) ∙ first)
              (summed canonical first) (back.1)),
        back.2,
      )

  -- Whatever steps of `Save` fail, either it returns an error and leaves the file as it was, or the
  -- file behind it opens to the engine that was saved, under any options. The engine's maps are stored
  -- under their values' identifiers, its state is read back from its encoding, and the checksum of
  -- its encoding is not 0, the number that stands for none.
  pub open_state_store-save :
      (io : Step → Bool) (e : Engine h) (file : Option Bytes) (options : Options)
      → IsStored h e
      → Readable (persisted_state h e)
      → Summed (persisted_state h e)
      → (((x : SaveError) × (save io e file ≡ (err x, file)))
          ⊎ ((f : Engine h) × (open_state_store (quiet ((save io e file).1)) options ≡ ok f)
              × IsSame h options e f))
  unfolding save write_file
  open_state_store-save io e file options stored readable summed =
      elim (Option-cases (files.marshal (persisted_state h e))) [
        | inl none_first ↦ inl (encode_failed, rw (save, none_first) refl)
        | inr (canonical, first) ↦
            elim (Option-cases
              (files.marshal (with_checksum (files.checksum canonical) (persisted_state h e)))) [
                | inl none_second ↦ inl (encode_failed, rw (save, first, none_second) refl)
                | inr (data_bytes, second) ↦ elim (Option-cases (first_failed io steps_before)) [
                  | inr (s, failed) ↦
                      inl (step_failed s, rw (save, first, second, write_file, failed) refl)
                  | inl done ↦
                      let installed : (save io e file).1 ≡ some data_bytes =
                        elim (Option-cases (first_failed io steps_behind)) [
                          | inl all ↦ rw (save, first, second, write_file, done, all) refl
                          | inr (s, failed) ↦
                              rw (save, first, second, write_file, done, failed) refl
                        ] in
                      let back =
                        opened e options canonical data_bytes stored readable summed first second in
                      inr (
                        back.0,
                        ap (λ b. open_state_store (quiet b) options) installed ∙ back.1,
                        back.2,
                      )
                ]
              ]
      ]
