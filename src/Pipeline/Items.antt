-- ===== src/Pipeline/Items.antt =====
-- runtime/go/internal/pipeline/pipeline.go: lemmas on the items of a batch, and on the loops of
-- `ackDurableBatch` and `quarantineDurableBatch`.
use node_flow.Prelude.{
  ℕ, zero, suc, ◌+◌, ◌≤◌, ◌<◌, ◌≡◌, refl, sym, ap, ◌∙◌, ◌⊎◌, Bool, true, false, Option, none, some,
  List, [], ◌∷◌, map, length, leb, arith, Option-cases, Bool-cases, inl, inr, All,
}
use node_flow.Telemetry.{Envelope}
use node_flow.Wal.Format.{Record}
use node_flow.Pipeline.{Item, durable_records, retry_exhausted}
use node_flow.Pipeline.Work.{WorkError, Finished, Run, finished, complete, restore, checkpoint}

-- The loop has an end, which answers just these channels.
abbrev pub Answers : Run → List ℕ → Type 0
Answers run cs = (f : Finished) × (run ≡ finished f) × (map (λ a. a.0) f.answers ≡ cs)

-- A try, before so many, where the storage takes a change or the context is done.
abbrev pub IsSettled : (ℕ → Bool) → (ℕ → Bool) → ℕ → ℕ → Type 0
IsSettled takes stays tries first =
    (k : ℕ) × (k < tries) × ((takes (first + k) ≡ true) ⊎ (stays (first + k) ≡ false))

pub checkpoint-settled :
    (takes stays : ℕ → Bool) (fuel first k : ℕ)
    → k < fuel
    → (takes (first + k) ≡ true) ⊎ (stays (first + k) ≡ false)
    → (b : Bool) × (checkpoint takes stays fuel first ≡ some b)
unfolding checkpoint
checkpoint-settled takes stays zero first k less here = absurd (omega arith)
checkpoint-settled takes stays (suc fuel) first zero less here =
    let same : first + 0 ≡ first = omega arith in
    elim (Bool-cases (takes first)) [
      | inl taken ↦ rw (checkpoint, taken) (true, refl)
      | inr refused ↦ elim (Bool-cases (stays first)) [
        | inr done ↦ rw (checkpoint, refused, done) (false, refl)
        | inl on ↦ elim here [
          | inl taken ↦ absurd (cc (refused, ap takes same, taken))
          | inr done ↦ absurd (cc (on, ap stays same, done))
        ]
      ]
    ]
checkpoint-settled takes stays (suc fuel) first (suc k) less here =
    let same : first + suc k ≡ first + 1 + k = omega arith in
    elim (Bool-cases (takes first)) [
      | inl taken ↦ rw (checkpoint, taken) (true, refl)
      | inr refused ↦ elim (Bool-cases (stays first)) [
        | inr done ↦ rw (checkpoint, refused, done) (false, refl)
        | inl on ↦
            rw (checkpoint, refused, on)
              (checkpoint-settled takes stays fuel (first + 1) k (omega arith) (elim here [
                | inl taken ↦ inl (sym (ap takes same) ∙ taken)
                | inr done ↦ inr (sym (ap stays same) ∙ done)
              ]))
      ]
    ]

module _ {S R : Type 0} where
  abbrev pub channels : List (Item S R) → List ℕ
  channels [] = []
  channels (i ∷ is) = let rest = channels is in elim i.channel [ none ↦ rest | some c ↦ c ∷ rest ]

  abbrev pub HasRecord : Item S R → Type 0
  HasRecord i = (r : Record (Envelope S R)) × (i.stored ≡ some r)

  -- What `MarkRetry` makes of the records `r ∷ rs`, the first of which was tried `a` times: as many
  -- records, and the first is tried once more at least. `Held` says of a record's identifier that the
  -- storage has it active, and how often it was tried at least.
  pub record IsMarked (Held : ℕ → ℕ → Type 0) (r : Record (Envelope S R))
      (rs : List (Record (Envelope S R))) (a : ℕ) (qs : List (Record (Envelope S R))) : Type 0 where
    pub first : Record (Envelope S R)
    pub rest : List (Record (Envelope S R))
    pub is_first : qs ≡ first ∷ rest
    pub length_rest : length rest ≡ length rs
    pub attempts_le : a + 1 ≤ first.attempts
    pub held : Held first.id (a + 1)

  pub complete-channels :
      (batch : List (Item S R)) (outcomes : List (Option ℕ)) (e : Option WorkError)
      → map (λ a. a.0) (complete batch outcomes e) ≡ channels batch
  unfolding complete
  complete-channels [] outcomes e = refl
  complete-channels (i ∷ is) outcomes e = elim (Option-cases i.channel) [
    | inl silent ↦ rw (silent, complete) (complete-channels is _ e)
    | inr (c, waiting) ↦ rw (waiting, complete) (ap (λ t. c ∷ t) (complete-channels is _ e))
  ]

  -- Where each item has a record, there is an item for each record to go to.
  pub restored :
      (batch : List (Item S R)) (rs : List (Record (Envelope S R)))
      → All HasRecord batch
      → length rs ≤ length batch
      → (later : List (Item S R)) × (restore batch rs ≡ some later)
        × (channels later ≡ channels batch)
        × All HasRecord later
  unfolding restore
  restored batch [] all less = (batch, refl, refl, all)
  restored [] (r ∷ rs) all less = absurd (omega arith)
  restored (i ∷ is) (r ∷ rs) ((old, has_old), all) less =
      let rest = restored is rs all (omega arith) in
      (
        record i { stored = some r } ∷ rest.0,
        rw (restore, has_old, rest.1) refl,
        ground (arith, rest.2),
        ((r, refl), rest.3),
      )

  pub length-durable_records :
      (batch : List (Item S R)) → length (durable_records batch) ≤ length batch
  unfolding durable_records
  length-durable_records [] = omega arith
  length-durable_records (i ∷ is) = ground (arith, length-durable_records is)

  pub exhausted :
      (max_attempts : ℕ) (i : Item S R) (is : List (Item S R)) (r : Record (Envelope S R))
      → i.stored ≡ some r
      → max_attempts ≤ r.attempts + 1
      → retry_exhausted max_attempts (i ∷ is) ≡ true
  unfolding retry_exhausted
  exhausted max_attempts i is r e h =
      let often : leb max_attempts (r.attempts + 1) ≡ true = ground arith in
      rw (retry_exhausted, e, often) refl
