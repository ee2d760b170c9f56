-- ===== src/Wal/Log/Answers.antt =====
-- runtime/go/internal/spool/wal.go: the answers of `processAppendRequests`.
use mathlib.Core.List.{Perm, perm_middle, map-append}
use mathlib.Core.List.Perm
use node_flow.Prelude.{
  ℕ, ◌≡◌, refl, sym, ap, subst, ◌∙◌, List, [], ◌∷◌, ◌++◌, map, append_assoc, append-nil, Result, ok,
  err, Option-cases, Bool-cases, Result-cases, inl, inr,
}
use node_flow.Wal.Format.{Platform, encode_wal_data_frame}
use node_flow.Wal.Log.{Wal, WalError}
use node_flow.Wal.Log.Commit.{
  CommitIo, Request, Answer, Batch, answer_one, refuse, flush, process_loop, stamp, bump_id,
  is_batch_full, process_append_requests, prepend, encode_failed,
}

module _ (p : Platform) where
  abbrev pub answered : List (Answer p) → List ℕ
  answered as_list = map (λ a. a.0) as_list

  abbrev pub asked : List (Request p) → List ℕ
  asked qs = map (λ q. q.channel) qs

  abbrev waiting : Batch p → List ℕ
  waiting batch = map (λ c. c.0) batch

  answered-answer_one :
      (r : Result WalError (Unit {0})) (batch : Batch p)
      → answered (map (answer_one p r) batch) ≡ waiting batch
  answered-answer_one r [] = refl
  answered-answer_one (ok u) (b ∷ batch) = ap (λ t. b.0 ∷ t) (answered-answer_one (ok u) batch)
  answered-answer_one (err e) (b ∷ batch) = ap (λ t. b.0 ∷ t) (answered-answer_one (err e) batch)

  answered-refuse :
      (e : WalError) (qs : List (Request p)) → answered (map (refuse p e) qs) ≡ asked qs
  answered-refuse e [] = refl
  answered-refuse e (q ∷ qs) = ap (λ t. q.channel ∷ t) (answered-refuse e qs)

  flush-answered :
      (ios : ℕ → CommitIo) (n : ℕ) (batch : Batch p) (w : Wal)
      → answered (flush p ios n batch w).1 ≡ waiting batch
  unfolding flush
  flush-answered ios n [] w = refl
  flush-answered ios n (b ∷ batch) w = answered-answer_one _ (b ∷ batch)

  answered-prepend :
      (front : List (Answer p)) (rest : List (Answer p) × Wal) (here todo : List ℕ)
      → answered front ≡ here
      → Perm (answered rest.0) todo
      → Perm (answered (prepend p front rest).0) (here ++ todo)
  answered-prepend front (more, w) here todo e h =
      subst (λ t. Perm t (here ++ todo))
        (sym (map-append (λ a. a.0) front more ∙ ap (λ t. t ++ answered more) e))
        (Perm.append (Perm.refl here) h)

  process_loop-answered :
      (ios : ℕ → CommitIo) (qs : List (Request p)) (n : ℕ) (batch : Batch p) (w : Wal)
      → Perm (answered (process_loop p ios qs n batch w).0) (waiting batch ++ asked qs)
  unfolding process_loop
  process_loop-answered ios [] n batch w =
      subst (λ t. Perm t (waiting batch ++ []))
        (sym (flush-answered ios n batch w ∙ sym (append-nil _))) (Perm.refl _)
  process_loop-answered ios (q ∷ qs) n batch w =
      elim (Option-cases (encode_wal_data_frame p (stamp p q w))) [
        | inl broken ↦
            rw (broken, process_loop)
              (Perm.trans
                (answered-prepend ((q.channel, err encode_failed) ∷ [])
                  (process_loop p ios qs n batch (bump_id p w)) (q.channel ∷ [])
                  (waiting batch ++ asked qs) refl
                  (process_loop-answered ios qs n batch (bump_id p w)))
                (Perm.symm (perm_middle (waiting batch) (asked qs))))
        | inr (frame, coded) ↦
            rw (coded, process_loop)
              (elim (Bool-cases (is_batch_full p batch frame (bump_id p w))) [
                | inl over ↦ rw over (elim (Result-cases (flush p ios n batch (bump_id p w)).0) [
                  | inl (e, failed) ↦ rw failed (
                      subst (λ t. Perm t (waiting batch ++ asked (q ∷ qs)))
                        (sym (
                          map-append (λ a. a.0) (flush p ios n batch (bump_id p w)).1 _
                          ∙ ap (λ t. answered (flush p ios n batch (bump_id p w)).1 ++ t)
                              (answered-refuse e (q ∷ qs))
                          ∙ ap (λ t. t ++ asked (q ∷ qs))
                              (flush-answered ios n batch (bump_id p w))))
                        (Perm.refl _))
                  | inr (u, flushed) ↦ rw flushed (
                      answered-prepend (flush p ios n batch (bump_id p w)).1
                        (process_loop p ios qs (flush p ios n batch (bump_id p w)).2
                          ((q.channel, record { item = stamp p q w; frame = frame }) ∷ [])
                          (flush p ios n batch (bump_id p w)).3)
                        (waiting batch) (asked (q ∷ qs)) (flush-answered ios n batch (bump_id p w))
                        (process_loop-answered ios qs (flush p ios n batch (bump_id p w)).2
                          ((q.channel, record { item = stamp p q w; frame = frame }) ∷ [])
                          (flush p ios n batch (bump_id p w)).3))
                ])
                | inr room ↦ rw room (
                    subst
                      (λ t.
                        Perm
                          (answered
                            (process_loop p ios qs n
                              (batch
                                ++ ((q.channel, record { item = stamp p q w; frame = frame }) ∷ []))
                              (bump_id p w)).0)
                          t)
                      (ap (λ t. t ++ asked qs)
                          (map-append (λ c. c.0) batch
                            ((q.channel, record { item = stamp p q w; frame = frame }) ∷ []))
                        ∙ append_assoc (waiting batch) (q.channel ∷ []) (asked qs))
                      (process_loop-answered ios qs n
                        (batch ++ ((q.channel, record { item = stamp p q w; frame = frame }) ∷ []))
                        (bump_id p w)))
              ])
      ]

  -- For any answers of the file system and any log, `process_append_requests` answers each request
  -- once and nothing else: the channels answered are the channels of the requests, in some order.
  -- A request that is not encoded, not admitted or not written is answered by its error.
  pub process_append_requests-answered :
      (ios : ℕ → CommitIo) (qs : List (Request p)) (w : Wal)
      → Perm (answered (process_append_requests p ios qs w).0) (asked qs)
  unfolding process_append_requests
  process_append_requests-answered ios qs w = process_loop-answered ios qs 0 [] w
