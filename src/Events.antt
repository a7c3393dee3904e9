-- ===== src/Events.antt =====
-- The event bus and the progress of documents: api/bigrag/services/event_bus and
-- document_progress.py.
pub mod Completed
pub mod Progress
mod Scenarios
use Prim.Native.String.{◌++◌ as text_append}
use bigrag.Base.{
  ℕ, zero, suc, String, Bool, true, false, not, Option, none, some, List, [], ◌∷◌, ◌++◌, text_eq,
  ltb, if◌then◌else◌, length, keep, any_of,
}
use bigrag.Base.Text.{is_empty}

-- `F` is a float.
pub record IngestionEvent (F : Type 0) : Type 0 where
  pub document_id : String
  pub step : String
  pub status : String
  pub message : String
  pub progress : F
  pub collection_name : String

-- What Redis answers for a document's last event; its text may be no event.
pub data Stored (F : Type 0) : Type 0 where
  missing invalid : Stored F
  event : IngestionEvent F → Stored F

unfoldable pub completed_max_entries : ℕ
completed_max_entries = 10000

-- `_completed` has the oldest key in front.
pub record EventBus (F : Type 0) : Type 0 where
  pub connected : Bool
  pub latest : List (String × IngestionEvent F)
  pub completed : List String
  pub published : List String

-- `popitem(last=False)` while there are too many
unfoldable pub trim : ℕ → List String → List String
trim most [] = []
trim most (k ∷ keys) =
    let rest = trim most keys in if ltb most (length (k ∷ keys)) then rest else k ∷ keys

unfoldable pub mark_completed : String → List String → List String
mark_completed key keys =
    if any_of (text_eq key) keys
    then keep (λ k. not (text_eq key k)) keys ++ (key ∷ [])
    else trim completed_max_entries (keys ++ (key ∷ []))

module _ {F : Type 0} where
  -- `_latest[key] = event`
  unfoldable pub set_latest :
      String
      → IngestionEvent F
      → List (String × IngestionEvent F)
      → List (String × IngestionEvent F)
  set_latest key e [] = (key, e) ∷ []
  set_latest key e ((k, f) ∷ latest) =
      let rest = set_latest key e latest in
      if text_eq k key then (key, e) ∷ latest else (k, f) ∷ rest

  unfoldable pub get_latest : String → List (String × IngestionEvent F) → Option (IngestionEvent F)
  get_latest key [] = none
  get_latest key ((k, f) ∷ latest) =
      let rest = get_latest key latest in if text_eq k key then some f else rest

  -- The channels of an event: its document's, that of all events, and its collection's.
  unfoldable pub publish : IngestionEvent F → EventBus F → EventBus F
  publish e bus =
      let document = if is_empty e.document_id then [] else "__ingestion__" ∷ [] in
      let collection =
        if is_empty e.collection_name
        then []
        else text_append "collection:" e.collection_name ∷ [] in
      record bus {
        latest = set_latest e.document_id e bus.latest;
        published =
            if bus.connected
            then bus.published ++ (e.document_id ∷ (document ++ collection))
            else bus.published;
      }

  unfoldable pub complete : String → EventBus F → EventBus F
  complete id bus = if any_of (text_eq id) bus.completed then bus else record bus {
    completed = mark_completed id bus.completed;
    published = if bus.connected then bus.published ++ (id ∷ []) else bus.published;
  }

  -- One message of `_listen`: a completion, or an event.
  unfoldable pub hear_complete : String → EventBus F → EventBus F
  hear_complete key bus =
      if any_of (text_eq key) bus.completed
      then bus
      else record bus { completed = mark_completed key bus.completed }

  unfoldable pub hear_event : IngestionEvent F → EventBus F → EventBus F
  hear_event e bus = record bus { latest = set_latest e.document_id e bus.latest }

  abbrev pub remembered : String → EventBus F → Option (IngestionEvent F)
  remembered id bus = get_latest id bus.latest

  -- `latest`, for what Redis answers; without Redis, or if it fails, that is `none`.
  unfoldable pub latest :
      Option (Stored F) → String → EventBus F → Option (IngestionEvent F) × EventBus F
  latest (some (event e)) id bus = (some e, record bus { latest = set_latest id e bus.latest })
  latest (some missing) id bus = (remembered id bus, bus)
  latest (some invalid) id bus = (remembered id bus, bus)
  latest none id bus = (remembered id bus, bus)

  -- The loop of `latest_many` over Redis's answers.
  unfoldable pub read_answers :
      (String → Stored F)
      → List String
      → List (String × IngestionEvent F)
      → EventBus F
      → List (String × IngestionEvent F) × EventBus F
  read_answers answer [] events bus = (events, bus)
  read_answers answer (id ∷ ids) events bus = elim (answer id) [
    | missing ↦ read_answers answer ids events bus
    | invalid ↦ read_answers answer ids events bus
    | event e ↦
        read_answers answer ids (set_latest id e events)
          record bus { latest = set_latest id e bus.latest }
  ]

  -- The loop over the ids that Redis had nothing for.
  unfoldable pub fill :
      List String → EventBus F → List (String × IngestionEvent F) → List (String × IngestionEvent F)
  fill [] bus events = events
  fill (id ∷ ids) bus events = elim (get_latest id events) [
    | some e ↦ fill ids bus events
    | none ↦ elim (remembered id bus) [
      | none ↦ fill ids bus events
      | some e ↦ fill ids bus (set_latest id e events)
    ]
  ]

  -- `latest_many`; `none` stands for no Redis, or one that fails.
  unfoldable pub latest_many :
      Option (String → Stored F)
      → List String
      → EventBus F
      → List (String × IngestionEvent F) × EventBus F
  latest_many none ids bus = (fill ids bus [], bus)
  latest_many (some answer) ids bus =
      let r = read_answers answer ids [] bus in (fill ids r.1 r.0, r.1)
