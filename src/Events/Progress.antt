-- ===== src/Events/Progress.antt =====
-- The progress of a document: api/bigrag/services/document_progress.py.
use bigrag.Base.{
  ℕ, ◌≡◌, ◌⊎◌, inl, inr, refl, Bool, true, false, ◌&&◌, ◌||◌, not, String, Option, none, some,
  text_eq, if◌then◌else◌, Bool-cases, arith,
}
use bigrag.Base.Text.{is_empty}
use bigrag.Ingest.Types.{DocumentStatus, pending, processing, ready, failed}
use bigrag.Events.{IngestionEvent, EventBus, Stored, latest}

-- The document's columns that its progress shows.
pub record DocumentRow : Type 0 where
  pub id : String
  pub status : DocumentStatus
  pub chunk_count : ℕ
  pub error_message : Option String

-- The floats with `<` and the four that the code writes; `ready_message` writes the count of chunks.
pub record Floats (F : Type 0) : Type 0 where
  pub lt : F → F → Bool
  pub nought : F
  pub one : F
  pub a_twentieth : F
  pub ready_message : ℕ → String

abbrev pub is_terminal : DocumentStatus → Bool
is_terminal ready = true
is_terminal failed = true
is_terminal _ = false

-- `status in TERMINAL_PROGRESS_STATUSES`
abbrev pub is_final : String → Bool
is_final status = text_eq status "complete" || text_eq status "failed"

abbrev pub or_text : String → String → String
or_text a b = if is_empty a then b else a

abbrev pub or_message : Option String → String → String
or_message none b = b
or_message (some a) b = or_text a b

module _ {F : Type 0} (floats : Floats F) where
  -- Python's `max(0.0, min(1.0, p))`: the first argument, unless the second is beyond it.
  unfoldable pub clamped : F → F
  clamped p =
      let low = if floats.lt p floats.one then p else floats.one in
      if floats.lt floats.nought low then low else floats.nought

  unfoldable pub document_progress_response :
      String → String → String → String → String → F → IngestionEvent F
  unfolding clamped
  document_progress_response document_id collection_name step status message progress = record {
    document_id = document_id;
    step = step;
    status = status;
    message = message;
    progress = clamped progress;
    collection_name = collection_name;
  }

  unfoldable pub fallback_for : DocumentStatus → DocumentRow → String → IngestionEvent F
  fallback_for ready d name =
      document_progress_response d.id name "complete" "complete"
        (floats.ready_message d.chunk_count) floats.one
  fallback_for failed d name =
      document_progress_response d.id name "failed" "failed"
        (or_message d.error_message "Ingestion failed") floats.nought
  fallback_for processing d name =
      document_progress_response d.id name "processing" "processing" "Processing document"
        floats.a_twentieth
  fallback_for pending d name =
      document_progress_response d.id name "queued" "pending" "Queued for ingestion" floats.nought

  abbrev pub fallback_progress : DocumentRow → String → IngestionEvent F
  fallback_progress d name = fallback_for d.status d name

  unfoldable pub of_event : IngestionEvent F → String → IngestionEvent F
  of_event e name =
      document_progress_response e.document_id (or_text e.collection_name name) e.step e.status
        e.message e.progress

  -- `document_progress`, for what the bus's `latest` answered
  unfoldable pub shown_progress :
      DocumentRow → String → Option (IngestionEvent F) → IngestionEvent F
  shown_progress d name none = fallback_progress d name
  shown_progress d name (some e) =
      if is_terminal d.status && not (is_final e.status)
      then fallback_progress d name
      else of_event e name

  unfoldable pub document_progress :
      Option (Stored F) → DocumentRow → String → EventBus F → IngestionEvent F × EventBus F
  document_progress answer d name bus =
      let r = latest answer d.id bus in (shown_progress d name r.0, r.1)

  -- What the floats' order keeps to, also at a NaN: 0 < 1, and no two are below each other.
  pub record IsOrder : Type 0 where
    pub apart : floats.lt floats.nought floats.one ≡ true
    pub one_way : (a b : F) → floats.lt a b ≡ true → floats.lt b a ≡ false

  -- Neither below 0 nor above 1.
  abbrev pub IsFraction : F → Type 0
  IsFraction p = (floats.lt p floats.nought ≡ false) × (floats.lt floats.one p ≡ false)

  not_below_itself : IsOrder → (a : F) → floats.lt a a ≡ false
  not_below_itself o a = elim (Bool-cases (floats.lt a a)) [ inl y ↦ o.one_way a a y | inr n ↦ n ]

  clamped-IsFraction : IsOrder → (p : F) → IsFraction (clamped p)
  unfolding clamped
  clamped-IsFraction o p = elim (Bool-cases (floats.lt p floats.one)) [
    | inl y ↦ elim (Bool-cases (floats.lt floats.nought p)) [
      | inl z ↦ rw (y, z) (o.one_way floats.nought p z, o.one_way p floats.one y)
      | inr z ↦
          rw (y, z) (not_below_itself o floats.nought, o.one_way floats.nought floats.one o.apart)
    ]
    | inr n ↦
        rw (n, o.apart) (o.one_way floats.nought floats.one o.apart, not_below_itself o floats.one)
  ]

  fallback-IsFraction :
      IsOrder
      → (x : DocumentStatus) (d : DocumentRow) (name : String)
      → IsFraction (fallback_for x d name).progress
  unfolding fallback_for document_progress_response
  fallback-IsFraction o ready d name = clamped-IsFraction o _
  fallback-IsFraction o failed d name = clamped-IsFraction o _
  fallback-IsFraction o processing d name = clamped-IsFraction o _
  fallback-IsFraction o pending d name = clamped-IsFraction o _

  of_event-IsFraction :
      IsOrder → (e : IngestionEvent F) (name : String) → IsFraction (of_event e name).progress
  unfolding of_event document_progress_response
  of_event-IsFraction o e name = clamped-IsFraction o _

  shown-IsFraction :
      IsOrder
      → (d : DocumentRow) (name : String) (e : Option (IngestionEvent F))
      → IsFraction (shown_progress d name e).progress
  unfolding shown_progress
  shown-IsFraction o d name none = fallback-IsFraction o d.status d name
  shown-IsFraction o d name (some e) =
      elim (Bool-cases (is_terminal d.status && not (is_final e.status))) [
        | inl y ↦ rw y (fallback-IsFraction o d.status d name)
        | inr n ↦ rw n (of_event-IsFraction o e name)
      ]

  -- If < of the floats is false one way where it is true the other way, and 0 < 1, then the progress
  -- that is shown of a document is neither below 0 nor above 1, whatever float its event carries, a NaN
  -- too, and whether Redis answers or not.
  pub document_progress-IsFraction :
      (answer : Option (Stored F)) (d : DocumentRow) (name : String) (bus : EventBus F)
      → IsOrder
      → IsFraction (document_progress answer d name bus).0.progress
  unfolding document_progress
  document_progress-IsFraction answer d name bus o =
      shown-IsFraction o d name (latest answer d.id bus).0

  -- The status that a document in a terminal state is shown with when no event decides.
  abbrev pub Agrees : DocumentStatus → String → Type 0
  Agrees ready status = status ≡ "complete"
  Agrees failed status = status ≡ "failed"
  Agrees _ status = ⊥

  fallback-Agrees :
      (x : DocumentStatus) (d : DocumentRow) (name : String)
      → is_terminal x ≡ true
      → Agrees x (fallback_for x d name).status
  unfolding fallback_for document_progress_response
  fallback-Agrees ready d name h = refl
  fallback-Agrees failed d name h = refl
  fallback-Agrees processing d name h = absurd (ground (arith, h))
  fallback-Agrees pending d name h = absurd (ground (arith, h))

  of_event-status : (e : IngestionEvent F) (name : String) → (of_event e name).status ≡ e.status
  unfolding of_event document_progress_response
  of_event-status e name = refl

  -- What a terminal document is shown with, after this last event.
  abbrev pub IsSettled : DocumentRow → Option (IngestionEvent F) → String → Type 0
  IsSettled d none status = Agrees d.status status
  IsSettled d (some e) status =
      ((is_final e.status ≡ true) × (status ≡ e.status))
      ⊎ ((is_final e.status ≡ false) × Agrees d.status status)

  shown-IsSettled :
      (d : DocumentRow) (name : String) (e : Option (IngestionEvent F))
      → is_terminal d.status ≡ true
      → IsSettled d e (shown_progress d name e).status
  unfolding shown_progress
  shown-IsSettled d name none h = fallback-Agrees d.status d name h
  shown-IsSettled d name (some e) h = elim (Bool-cases (is_final e.status)) [
    | inl y ↦ inl (y, rw (h, y) (of_event-status e name))
    | inr n ↦ inr (n, rw (h, n) (fallback-Agrees d.status d name h))
  ]

  -- A document that is ready or failed is shown with the status of its last event that Redis or the
  -- memory has, if that is complete or failed; if there is no such event, or it is of an earlier step,
  -- a ready document is shown as complete and a failed one as failed.
  pub document_progress-final :
      (answer : Option (Stored F)) (d : DocumentRow) (name : String) (bus : EventBus F)
      → is_terminal d.status ≡ true
      → IsSettled d (latest answer d.id bus).0 (document_progress answer d name bus).0.status
  unfolding document_progress
  document_progress-final answer d name bus h = shown-IsSettled d name (latest answer d.id bus).0 h
