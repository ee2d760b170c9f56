-- ===== src/Pipeline/Work.antt =====
-- runtime/go/internal/pipeline/pipeline.go: the loop of `work` on one batch.
use node_flow.Prelude.{
  ℕ, zero, suc, ◌+◌, Bool, true, false, ◌||◌, Option, none, some, List, [], ◌∷◌,
}
use node_flow.Telemetry.{Envelope}
use node_flow.Wal.Format.{Record}
use node_flow.Pipeline.{Item, durable_records, retry_exhausted}

-- A sink's error, and whether it says of itself that it is permanent.
pub record SinkError : Type 0 where
  pub permanent : Bool
  pub code : ℕ

pub data WorkError : Type 0 where
  sink_failed : SinkError → WorkError
  cancelled retry_failed : WorkError

-- What became of the batch: acknowledged in the storage, quarantined there, left there for another
-- delivery, or, without a storage, at an end.
pub data Fate : Type 0 where
  acknowledged quarantined kept over : Fate

-- A waiter's channel, its outcome, which is a revision if there is one, and the error.
abbrev pub Answer : Type 0
Answer = ℕ × Option ℕ × Option WorkError

pub record Finished : Type 0 where
  pub fate : Fate
  pub answers : List Answer

-- A run of the loop: to its end, into a panic, or to the end of its fuel.
pub data Run : Type 0 where
  fuel_ran_out panicked : Run
  finished : Finished → Run

-- The loops of `ackDurableBatch` and `quarantineDurableBatch`, from the try `k` on, on fuel: whether
-- the storage took the change, or the context was done before. `takes` is what the storage answers,
-- and `stays` is `waitForRetry`.
unfoldable pub checkpoint : (ℕ → Bool) → (ℕ → Bool) → ℕ → ℕ → Option Bool
checkpoint takes stays zero k = none
checkpoint takes stays (suc fuel) k = elim (takes k) [
  | true ↦ some true
  | false ↦ elim (stays k) [ true ↦ checkpoint takes stays fuel (k + 1) | false ↦ some false ]
]

abbrev pub first_outcome : List (Option ℕ) → Option ℕ
first_outcome [] = none
first_outcome (o ∷ os) = o

abbrev pub later_outcomes : List (Option ℕ) → List (Option ℕ)
later_outcomes [] = []
later_outcomes (o ∷ os) = os

-- What the sink, the storage and the context answer in the round `n`. `marks` is `MarkRetry` on the
-- records and the state of the storage: the records behind it, or an error, and the state.
pub record WorkIo (S R T : Type 0) : Type 0 where
  pub sink : ℕ → List (Option ℕ) × Option SinkError
  pub takes : ℕ → Bool
  pub stays : ℕ → Bool
  pub cancels : ℕ → Bool
  pub marks : ℕ → List (Record (Envelope S R)) → T → Option (List (Record (Envelope S R))) × T
  pub waits : ℕ → Bool

abbrev pub settle_batch : Option Bool → Run → Run → Run
settle_batch none taken never = fuel_ran_out
settle_batch (some true) taken never = taken
settle_batch (some false) taken never = never

module _ {S R : Type 0} where
  unfoldable pub complete : List (Item S R) → List (Option ℕ) → Option WorkError → List Answer
  complete [] outcomes e = []
  complete (i ∷ is) outcomes e =
      let rest = complete is (later_outcomes outcomes) e in
      elim i.channel [ none ↦ rest | some c ↦ (c, first_outcome outcomes, e) ∷ rest ]

  -- The loop of `retryDurableBatch`, `*batch[index].record = records[index]`: it panics where the item
  -- has no record.
  unfoldable pub restore : List (Item S R) → List (Record (Envelope S R)) → Option (List (Item S R))
  restore is [] = some is
  restore [] (r ∷ rs) = none
  restore (i ∷ is) (r ∷ rs) =
      let rest = restore is rs in
      elim i.stored [
        | none ↦ none
        | some old ↦ elim rest [ none ↦ none | some js ↦ some (record i { stored = some r } ∷ js) ]
      ]

  abbrev pub finish : Fate → List (Item S R) → List (Option ℕ) → Option WorkError → Run
  finish fate batch outcomes e =
      finished (record { fate = fate; answers = complete batch outcomes e })

module _ {S R T : Type 0} where
  abbrev pub succeed : Bool → WorkIo S R T → ℕ → List (Item S R) → List (Option ℕ) → Run
  succeed false io tries batch outcomes = finish over batch outcomes none
  succeed true io tries batch outcomes =
      settle_batch (checkpoint io.takes io.stays tries 0) (finish acknowledged batch outcomes none)
        (finish kept batch [] (some cancelled))

  abbrev pub give_up : WorkIo S R T → ℕ → List (Item S R) → SinkError → Run
  give_up io tries batch e =
      settle_batch (checkpoint io.takes io.stays tries 0)
        (finish quarantined batch [] (some (sink_failed e))) (finish kept batch [] (some cancelled))

  -- The loop, from the round `n` on, with fuel for its rounds and `tries` for those of a checkpoint.
  unfoldable pub work : Bool → ℕ → WorkIo S R T → ℕ → ℕ → ℕ → T → List (Item S R) → Run
  work durable max_attempts io tries zero n s batch = fuel_ran_out
  work durable max_attempts io tries (suc fuel) n s batch =
      let answer = io.sink n in
      let marked = io.marks n (durable_records batch) s in
      elim (answer.1) [
        | none ↦ succeed durable io tries batch (answer.0)
        | some e ↦ elim durable [
          | false ↦ finish over batch (answer.0) (some (sink_failed e))
          | true ↦ elim (io.cancels n) [
            | true ↦ finish kept batch [] (some cancelled)
            | false ↦ elim (e.permanent || retry_exhausted max_attempts batch) [
              | true ↦ give_up io tries batch e
              | false ↦ elim (marked.0) [
                | none ↦ finish kept batch [] (some retry_failed)
                | some records ↦ elim (restore batch records) [
                  | none ↦ panicked
                  | some later ↦ elim (io.waits n) [
                    | false ↦ finish kept later [] (some cancelled)
                    | true ↦ work durable max_attempts io tries fuel (n + 1) (marked.1) later
                  ]
                ]
              ]
            ]
          ]
        ]
      ]
