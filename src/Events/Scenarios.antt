-- ===== src/Events/Scenarios.antt =====
-- A document that is ready while its last event is of an earlier step.
use Prim.Native.Nat.{ℕ}
use bigrag.Base.{◌≡◌, refl, true, none, some, [], ◌∷◌, ltb, any_of, text_eq, arith}
use bigrag.Ingest.Types.{ready}
use bigrag.Events.{IngestionEvent, event, complete, latest}
use bigrag.Events.Completed.{
  IsBounded, completes, publishes, hears_complete, run_steps, new_bus, complete-run_steps,
}
use bigrag.Events.Progress.{
  DocumentRow, Floats, IsOrder, IsFraction, IsSettled, document_progress,
  document_progress-IsFraction, document_progress-final,
}

-- Floats that are hundredths, less one.
abbrev hundredths : Floats ℕ
hundredths = record {
  lt = ltb;
  nought = 100;
  one = 200;
  a_twentieth = 105;
  ready_message = λ n. "Ready";
}

hundredths-IsOrder : IsOrder hundredths
hundredths-IsOrder = record { apart = refl; one_way = λ a b h. ground (arith, h) }

abbrev embedding_event : IngestionEvent ℕ
embedding_event = record {
  document_id = "d";
  step = "embedding";
  status = "processing";
  message = "Embedding";
  progress = 250;
  collection_name = "";
}

abbrev ready_document : DocumentRow
ready_document = record { id = "d"; status = ready; chunk_count = 3; error_message = none }

document_progress-IsFraction_example :
    IsFraction hundredths
      (document_progress hundredths
        (some (event embedding_event))
        ready_document
        "docs"
        (new_bus true)).0.progress
document_progress-IsFraction_example =
    document_progress-IsFraction hundredths (some (event embedding_event)) ready_document "docs"
      (new_bus true) hundredths-IsOrder

document_progress-final_example :
    IsSettled hundredths ready_document
      (latest (some (event embedding_event)) ready_document.id (new_bus true)).0
      (document_progress hundredths
        (some (event embedding_event))
        ready_document
        "docs"
        (new_bus true)).0.status
document_progress-final_example =
    document_progress-final hundredths (some (event embedding_event)) ready_document "docs"
      (new_bus true) refl

complete-run_steps_example :
    let bus = complete "c" (
      run_steps
        (publishes embedding_event ∷ completes "a" ∷ hears_complete "b" ∷ completes "a" ∷ [])
        (new_bus true)) in
    IsBounded bus.completed × (any_of (text_eq "c") bus.completed ≡ true)
complete-run_steps_example =
    complete-run_steps true
      (publishes embedding_event ∷ completes "a" ∷ hears_complete "b" ∷ completes "a" ∷ []) "c"
