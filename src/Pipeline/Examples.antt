-- ===== src/Pipeline/Examples.antt =====
-- The pipeline at concrete inputs.
use node_flow.Prelude.{
  ℕ, ◌<◌, ◌≡◌, refl, inl, true, false, none, some, List, [], ◌∷◌, ◌==◌, if◌then◌else◌, arith, pos,
  lookup, insert, erase,
}
use node_flow.Bytes.{Bytes}
use node_flow.Telemetry.{Envelope}
use node_flow.Store.{Store, mark_records}
use node_flow.Pipeline.{Item, worker_index, flush_to, durable_records, retry_exhausted}
use node_flow.Pipeline.Routing.{items_of, batch_for, AreServicesDistinct, flush_to-batch_for}
use node_flow.Pipeline.Work.{
  WorkIo, work, finished, quarantined, sink_failed, checkpoint, restore, complete,
}
use node_flow.Pipeline.Items.{channels, Answers}
use node_flow.Pipeline.Ends.{IsTried, CountsAttempts, work-Answers}
use node_flow.Pipeline.Marks.{store_marks, IsHeld, store_marks-IsMarked}

abbrev spans_of : Bytes → Envelope ℕ ℕ
spans_of name = record {
  protocol_version = b'1' ∷ [];
  span_batch = some (record { service_name = name; node_version = []; spans = 1 ∷ 2 ∷ [] });
  runtime_metrics = none;
}

abbrev item_of : ℕ → Bytes → Item ℕ ℕ
item_of k name = record {
  envelope = spans_of name;
  channel = some k;
  stored = some (record { id = k; attempts = 0; enqueued_at = pos 5; envelope = spans_of name });
}

abbrev pending : List (Item ℕ ℕ)
pending = item_of 1 (b'a' ∷ []) ∷ item_of 2 (b'b' ∷ []) ∷ item_of 3 (b'a' ∷ []) ∷ []

flush_to-batch_for_example :
    (batch_for (b'a' ∷ []) (flush_to 4 pending 3)
      ≡ (if 3 == worker_index (b'a' ∷ []) 4 then items_of (b'a' ∷ []) pending else []))
    × AreServicesDistinct (flush_to 4 pending 3)
    × (worker_index (b'a' ∷ []) 4 < 4)
flush_to-batch_for_example = flush_to-batch_for 4 pending 3 (b'a' ∷ []) (omega arith) (omega arith)

-- The legacy store with the records of the batch, the second of them acknowledged since.
abbrev held_store : Store
held_store = record {
  max_bytes = 100;
  next_id = 4;
  used_bytes = 20;
  active =
      (1, record { attempts = 0; allocated = 10 })
      ∷ (3, record { attempts = 0; allocated = 10 })
      ∷ [];
  ids = 1 ∷ 3 ∷ [];
  quarantined = 0;
  files = [];
  dead = [];
}

-- A sink that always fails for the moment, before a storage that takes the second try.
abbrev refusing : WorkIo ℕ ℕ Store
refusing = record {
  sink = λ n. ([], some (record { permanent = false; code = n }));
  takes = λ k. 1 == k;
  stays = λ k. true;
  cancels = λ n. false;
  marks = λ n rs s. store_marks (λ k. true) true rs s;
  waits = λ n. true;
}

abbrev counting : CountsAttempts refusing
counting = record {
  Held = IsHeld;
  marked = λ n s r rs a qs held e. store_marks-IsMarked (λ k. true) true s r rs a qs held e;
}

pending-IsTried : IsTried refusing counting 0 held_store pending
unfolding lookup
pending-IsTried = record {
  first = item_of 1 (b'a' ∷ []);
  rest = item_of 2 (b'b' ∷ []) ∷ item_of 3 (b'a' ∷ []) ∷ [];
  tried = record { id = 1; attempts = 0; enqueued_at = pos 5; envelope = spans_of (b'a' ∷ []) };
  is_first = refl;
  stored = refl;
  attempts_le = omega arith;
  held = (record { attempts = 0; allocated = 10 }, refl, omega arith);
  others = ((_, refl), ((_, refl), tt));
}

-- In the third round the batch is quarantined, at the second try.
refused-quarantined :
    work true 3 refusing 2 3 0 held_store pending
    ≡ finished (record {
      fate = quarantined;
      answers =
          (1, none, some (sink_failed (record { permanent = false; code = 2 })))
          ∷ (2, none, some (sink_failed (record { permanent = false; code = 2 })))
          ∷ (3, none, some (sink_failed (record { permanent = false; code = 2 })))
          ∷ [];
    })
unfolding work checkpoint store_marks mark_records restore complete durable_records retry_exhausted
    lookup insert erase
refused-quarantined = refl

work-Answers_example : Answers (work true 3 refusing 2 3 0 held_store pending) (channels pending)
work-Answers_example =
    work-Answers true 3 refusing counting 2 3 0 0 held_store pending pending-IsTried
      (1, omega arith, inl refl) (omega arith) (omega arith)
