-- ===== src/Pipeline/Ends.antt =====
-- runtime/go/internal/pipeline/pipeline.go: theorems on the loop of `work`.
use node_flow.Prelude.{
  ℕ, zero, suc, ◌+◌, ◌≤◌, ◌<◌, ◌≡◌, refl, sym, Bool, true, false, ◌||◌, Option, none, some, List,
  [], ◌∷◌, subst, arith, Option-cases, Bool-cases, inl, inr, All,
}
use node_flow.Telemetry.{Envelope}
use node_flow.Wal.Format.{Record}
use node_flow.Pipeline.{Item, durable_records, retry_exhausted}
use node_flow.Pipeline.Work.{
  WorkError, Fate, Run, WorkIo, restore, work, checkpoint, settle_batch, finish, over, kept,
  acknowledged, quarantined, sink_failed, cancelled, retry_failed,
}
use node_flow.Pipeline.Items.{
  Answers, IsSettled, checkpoint-settled, channels, HasRecord, IsMarked, complete-channels,
  restored, length-durable_records, exhausted,
}

module _ {S R : Type 0} where
  finish-Answers :
      (fate : Fate) (batch : List (Item S R)) (outcomes : List (Option ℕ)) (e : Option WorkError)
      → Answers (finish fate batch outcomes e) (channels batch)
  finish-Answers fate batch outcomes e = (_, refl, complete-channels batch outcomes e)

module _ {S R T : Type 0} where
  -- The storage, while the worker holds a batch: `Held s k a` says that the record `k` is active in its
  -- state `s` and was tried `a` times at least, and `MarkRetry`, where it reports no error, counts an
  -- attempt of such a record.
  pub record CountsAttempts (io : WorkIo S R T) : Type 1 where
    pub Held : T → ℕ → ℕ → Type 0
    pub marked :
        (n : ℕ) (s : T) (r : Record (Envelope S R)) (rs : List (Record (Envelope S R))) (a : ℕ)
        (qs : List (Record (Envelope S R)))
        → Held s r.id a
        → (io.marks n (r ∷ rs) s).0 ≡ some qs
        → IsMarked (Held ((io.marks n (r ∷ rs) s).1)) r rs a qs

  -- Each item of the batch has a record, and that of the first one is active in the storage and was
  -- tried `a` times at least.
  pub record IsTried (io : WorkIo S R T) (c : CountsAttempts io) (a : ℕ) (s : T)
      (batch : List (Item S R)) : Type 0 where
    pub first : Item S R
    pub rest : List (Item S R)
    pub tried : Record (Envelope S R)
    pub is_first : batch ≡ first ∷ rest
    pub stored : first.stored ≡ some tried
    pub attempts_le : a ≤ tried.attempts
    pub held : c.Held s tried.id a
    pub others : All HasRecord rest

  -- Without a storage, nothing is asked of the batch.
  abbrev pub IsReady :
      Bool → (io : WorkIo S R T) → CountsAttempts io → ℕ → T → List (Item S R) → Type 0
  IsReady false io c a s batch = Unit {0}
  IsReady true io c a s batch = IsTried io c a s batch

  settled-Answers :
      (io : WorkIo S R T) (tries : ℕ) (taken never : Run) (cs : List ℕ)
      → IsSettled io.takes io.stays tries 0
      → Answers taken cs
      → Answers never cs
      → Answers (settle_batch (checkpoint io.takes io.stays tries 0) taken never) cs
  settled-Answers io tries taken never cs (k, less, here) p q =
      let b = checkpoint-settled io.takes io.stays tries 0 k less here in
      elim (Bool-cases (b.0)) [ inl taken ↦ rw (b.1, taken) p | inr refused ↦ rw (b.1, refused) q ]

  restore_first :
      (io : WorkIo S R T) (c : CountsAttempts io) (n a : ℕ) (s : T) (i : Item S R)
      (is : List (Item S R)) (r : Record (Envelope S R)) (qs : List (Record (Envelope S R)))
      → i.stored ≡ some r
      → c.Held s r.id a
      → All HasRecord is
      → (io.marks n (durable_records (i ∷ is)) s).0 ≡ some qs
      → (later : List (Item S R)) × (restore (i ∷ is) qs ≡ some later)
        × (channels later ≡ channels (i ∷ is))
        × IsTried io c (a + 1) ((io.marks n (durable_records (i ∷ is)) s).1) later
  unfolding durable_records restore
  restore_first io c n a s i is r qs e held all marked =
      let m = c.marked n s r (durable_records is) a qs held (rw (durable_records, e) at marked) in
      let more = restored is m.rest all (omega (arith, m.length_rest, length-durable_records is)) in
      (
        record i { stored = some m.first } ∷ more.0,
        rw (m.is_first, restore, e, more.1) refl,
        ground (arith, more.2),
        rw (durable_records, e)
            (record {
              first = record i { stored = some m.first };
              rest = more.0;
              tried = m.first;
              is_first = refl;
              stored = refl;
              attempts_le = m.attempts_le;
              held = m.held;
              others = more.3;
            }),
      )

  -- A retry leaves the items, each with a record, the first tried once more.
  marked-IsTried :
      (io : WorkIo S R T) (c : CountsAttempts io) (n a : ℕ) (s : T) (batch : List (Item S R))
      (qs : List (Record (Envelope S R)))
      → IsTried io c a s batch
      → (io.marks n (durable_records batch) s).0 ≡ some qs
      → (later : List (Item S R)) × (restore batch qs ≡ some later)
        × (channels later ≡ channels batch)
        × IsTried io c (a + 1) ((io.marks n (durable_records batch) s).1) later
  marked-IsTried io c n a s batch qs t marked = rw t.is_first (
      restore_first io c n a s t.first t.rest t.tried qs t.stored t.held t.others
        (rw t.is_first at marked))

  left_over :
      (lasts : Bool) (max_attempts a fuel : ℕ) (io : WorkIo S R T) (c : CountsAttempts io) (s : T)
      (batch : List (Item S R))
      → IsTried io c a s batch
      → (lasts || retry_exhausted max_attempts batch) ≡ false
      → max_attempts ≤ suc fuel + a
      → 0 < fuel
  left_over lasts max_attempts a zero io c s batch t again enough =
      let spent =
        exhausted max_attempts t.first t.rest t.tried t.stored (omega (arith, t.attempts_le)) in
      absurd (ground (arith, rw (sym t.is_first) at spent, again))
  left_over lasts max_attempts a (suc fuel) io c s batch t again enough = omega arith

  -- The loop with a storage.
  work_durable-Answers :
      (max_attempts : ℕ) (io : WorkIo S R T) (c : CountsAttempts io) (tries fuel n a : ℕ) (s : T)
      (batch : List (Item S R))
      → IsTried io c a s batch
      → IsSettled io.takes io.stays tries 0
      → 0 < fuel
      → max_attempts ≤ fuel + a
      → Answers (work true max_attempts io tries fuel n s batch) (channels batch)
  unfolding work
  work_durable-Answers max_attempts io c tries zero n a s batch t ends some_round enough =
      absurd (omega arith)
  work_durable-Answers max_attempts io c tries (suc fuel) n a s batch t ends some_round enough =
      let cancels = finish-Answers kept batch [] (some cancelled) in
      elim (Option-cases (io.sink n).1) [
        | inl well ↦
            rw (well, work)
              (settled-Answers io tries _ _ (channels batch) ends
                (finish-Answers acknowledged batch (io.sink n).0 none) cancels)
        | inr (e, fails) ↦
            rw (fails, work)
              (elim (Bool-cases (io.cancels n)) [
                | inl stop ↦ rw stop cancels
                | inr on ↦
                    rw on (elim (Bool-cases (e.permanent || retry_exhausted max_attempts batch)) [
                      | inl last ↦ rw last (
                          settled-Answers io tries _ _ (channels batch) ends
                            (finish-Answers quarantined batch [] (some (sink_failed e))) cancels)
                      | inr again ↦
                          rw again (elim (Option-cases ((io.marks n (durable_records batch) s).0)) [
                            | inl refused ↦
                                rw refused (finish-Answers kept batch [] (some retry_failed))
                            | inr (qs, marked) ↦
                                let more = marked-IsTried io c n a s batch qs t marked in
                                rw (marked, more.1)
                                  (subst (Answers _) (more.2) (elim (Bool-cases (io.waits n)) [
                                    | inr stop ↦
                                        rw stop (finish-Answers kept (more.0) [] (some cancelled))
                                    | inl waited ↦ rw waited (
                                        work_durable-Answers max_attempts io c tries fuel (n + 1)
                                          (a + 1) _ (more.0) (more.3) ends
                                          (left_over e.permanent max_attempts a fuel io c s batch t
                                            again enough)
                                          (omega arith))
                                  ]))
                          ])
                    ])
              ])
      ]

  -- The worker's loop comes to an end without a panic, within as many rounds as are left up to
  -- `max_attempts`, and one at least, whatever the sink and the context answer, and every waiter of the
  -- batch is answered once, in order. With a storage, each item of the batch has a record, that of the
  -- first is active in the storage, tried `a` times, the storage counts the attempts of an active record
  -- that it marks, and one of the tries at a final acknowledgement or quarantine is taken by the storage
  -- or sees the context done.
  pub work-Answers :
      (durable : Bool) (max_attempts : ℕ) (io : WorkIo S R T) (c : CountsAttempts io)
      (tries fuel n a : ℕ) (s : T) (batch : List (Item S R))
      → IsReady durable io c a s batch
      → IsSettled io.takes io.stays tries 0
      → 0 < fuel
      → max_attempts ≤ fuel + a
      → Answers (work durable max_attempts io tries fuel n s batch) (channels batch)
  unfolding work
  work-Answers true max_attempts io c tries fuel n a s batch t ends some_round enough =
      work_durable-Answers max_attempts io c tries fuel n a s batch t ends some_round enough
  work-Answers false max_attempts io c tries zero n a s batch t ends some_round enough =
      absurd (omega arith)
  work-Answers false max_attempts io c tries (suc fuel) n a s batch t ends some_round enough =
      elim (Option-cases (io.sink n).1) [
        | inl well ↦ rw (well, work) (finish-Answers over batch (io.sink n).0 none)
        | inr (e, fails) ↦
            rw (fails, work) (finish-Answers over batch (io.sink n).0 (some (sink_failed e)))
      ]
