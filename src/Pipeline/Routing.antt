-- ===== src/Pipeline/Routing.antt =====
-- runtime/go/internal/pipeline/pipeline.go: theorems on the grouping of `flush`.
use node_flow.Prelude.{
  ℕ, ◌^◌, ◌<◌, ◌≡◌, refl, ap, subst, ◌∙◌, Bool, true, false, List, All, [], ◌∷◌, ◌++◌, append_assoc,
  append-nil, ◌==◌, bytes_eq, bytes_eq_self, bytes_eq_sound, if◌then◌else◌, arith, Bool-cases, inl,
  inr,
}
use node_flow.Bytes.{Bytes}
use node_flow.Pipeline.{Item, Batches, service_key, worker_index, put_item, group_items, flush_to}

module _ {S R : Type 0} where
  -- The items of a service, in their order.
  abbrev pub items_of : Bytes → List (Item S R) → List (Item S R)
  items_of key [] = []
  items_of key (i ∷ is) =
      let rest = items_of key is in if bytes_eq (service_key i.envelope) key then i ∷ rest else rest

  -- The first batch of a service.
  abbrev pub batch_for : Bytes → Batches S R → List (Item S R)
  batch_for key [] = []
  batch_for key ((k, is) ∷ rest) =
      let later = batch_for key rest in if bytes_eq k key then is else later

  put_item-batch_for :
      (key k : Bytes) (i : Item S R) (b : Batches S R)
      → batch_for key (put_item k i b)
        ≡ (if bytes_eq k key then batch_for key b ++ (i ∷ []) else batch_for key b)
  unfolding put_item
  put_item-batch_for key k i [] = ground arith
  put_item-batch_for key k i ((j, is) ∷ b) = elim (Bool-cases (bytes_eq j k)) [
    | inl same ↦
        subst
          (λ t. batch_for key (put_item t i ((j, is) ∷ b)) ≡ (
            if bytes_eq t key
            then batch_for key ((j, is) ∷ b) ++ (i ∷ [])
            else batch_for key ((j, is) ∷ b)))
          (bytes_eq_sound j k same) (ground (arith, bytes_eq_self j))
    | inr other ↦ elim (Bool-cases (bytes_eq k key)) [
      | inl mine ↦
          let apart : bytes_eq j key ≡ false =
            subst (λ t. bytes_eq j t ≡ false) (bytes_eq_sound k key mine) other in
          rw (other, mine, apart) (put_item-batch_for key k i b ∙ rw mine)
      | inr theirs ↦ rw (other, put_item-batch_for key k i b, theirs)
    ]
  ]

  grown :
      (key : Bytes) (i : Item S R) (is : List (Item S R)) (b : Batches S R) (at_mine at_key : Bool)
      → (bytes_eq (service_key i.envelope) key ≡ true → at_mine ≡ at_key)
      → batch_for key (if at_mine then put_item (service_key i.envelope) i b else b)
          ++ (if at_key then items_of key is else [])
        ≡ batch_for key b ++ (if at_key then items_of key (i ∷ is) else [])
  grown key i is b true true agree = elim (Bool-cases (bytes_eq (service_key i.envelope) key)) [
    | inl same ↦
        rw (put_item-batch_for key (service_key i.envelope) i b, same)
          (append_assoc (batch_for key b) (i ∷ []) (items_of key is))
    | inr other ↦ rw (put_item-batch_for key (service_key i.envelope) i b, other)
  ]
  grown key i is b true false agree = elim (Bool-cases (bytes_eq (service_key i.envelope) key)) [
    | inl same ↦ absurd (ground (arith, agree same))
    | inr other ↦ rw (put_item-batch_for key (service_key i.envelope) i b, other)
  ]
  grown key i is b false true agree = elim (Bool-cases (bytes_eq (service_key i.envelope) key)) [
    | inl same ↦ absurd (ground (arith, agree same))
    | inr other ↦ rw other
  ]
  grown key i is b false false agree = refl

  -- What a worker holds for a service before the loop of `flush`, and what comes to it.
  group_items-batch_for :
      (workers : ℕ) (is : List (Item S R)) (groups : ℕ → Batches S R) (w : ℕ) (key : Bytes)
      → batch_for key (group_items workers is groups w)
        ≡ batch_for key (groups w)
          ++ (if w == worker_index key workers then items_of key is else [])
  unfolding group_items
  group_items-batch_for workers [] groups w key =
      ground (arith, append-nil (batch_for key (groups w)))
  group_items-batch_for workers (i ∷ is) groups w key =
      let mine = service_key i.envelope in
      let next : ℕ → Batches S R =
        λ v. if v == worker_index mine workers then put_item mine i (groups v) else groups v in
      group_items-batch_for workers is next w key
      ∙ grown key i is (groups w) (w == worker_index mine workers) (w == worker_index key workers)
          (λ same. ap (λ t. w == worker_index t workers) (bytes_eq_sound mine key same))

  -- One batch to a service.
  abbrev pub AreServicesDistinct : Batches S R → Type 0
  AreServicesDistinct [] = Unit
  AreServicesDistinct ((k, is) ∷ rest) =
      All (λ b. bytes_eq k b.0 ≡ false) rest × AreServicesDistinct rest

  put_item-apart :
      (j k : Bytes) (i : Item S R) (b : Batches S R)
      → bytes_eq j k ≡ false
      → All (λ c. bytes_eq j c.0 ≡ false) b
      → All (λ c. bytes_eq j c.0 ≡ false) (put_item k i b)
  unfolding put_item
  put_item-apart j k i [] apart h = (apart, tt)
  put_item-apart j k i ((l, is) ∷ b) apart h =
      ground (arith, put_item-apart j k i b apart h.1, h.0, h.1)

  put_item-AreServicesDistinct :
      (k : Bytes) (i : Item S R) (b : Batches S R)
      → AreServicesDistinct b
      → AreServicesDistinct (put_item k i b)
  unfolding put_item
  put_item-AreServicesDistinct k i [] d = (tt, tt)
  put_item-AreServicesDistinct k i ((j, is) ∷ b) d = elim (Bool-cases (bytes_eq j k)) [
    | inl same ↦ rw same d
    | inr other ↦
        rw other (put_item-apart j k i b other d.0, put_item-AreServicesDistinct k i b d.1)
  ]

  group_items-AreServicesDistinct :
      (workers : ℕ) (is : List (Item S R)) (groups : ℕ → Batches S R)
      → ((w : ℕ) → AreServicesDistinct (groups w))
      → (w : ℕ) → AreServicesDistinct (group_items workers is groups w)
  unfolding group_items
  group_items-AreServicesDistinct workers [] groups d w = d w
  group_items-AreServicesDistinct workers (i ∷ is) groups d w =
      group_items-AreServicesDistinct workers is _
        (λ v. elim (Bool-cases (v == worker_index (service_key i.envelope) workers)) [
          | inl here ↦
              rw here (put_item-AreServicesDistinct (service_key i.envelope) i (groups v) (d v))
          | inr there ↦ rw there (d v)
        ])
        w

  -- A flush hands each worker one batch to a service at most; the worker that the service's hash
  -- chooses gets all pending items of the service in their order, every other worker none. With one
  -- worker or more, and fewer than 2^32, the chosen one exists.
  pub flush_to-batch_for :
      (workers : ℕ) (pending : List (Item S R)) (w : ℕ) (key : Bytes)
      → 0 < workers
      → workers < 2 ^ 32
      → (batch_for key (flush_to workers pending w)
          ≡ (if w == worker_index key workers then items_of key pending else []))
        × AreServicesDistinct (flush_to workers pending w)
        × (worker_index key workers < workers)
  unfolding flush_to worker_index
  flush_to-batch_for workers pending w key some_worker few = (
    group_items-batch_for workers pending (λ v. []) w key,
    group_items-AreServicesDistinct workers pending (λ v. []) (λ v. tt) w,
    omega arith,
  )
