-- ===== src/Ingest/Payload.antt =====
-- Jobs as JSON: IngestionJob.serialize and deserialize of api/bigrag/services/ingestion_job.py.
-- A field of a job that was read holds any JSON value, as the dataclass checks no types.
use bigrag.Base.{
  String, ◌≡◌, refl, Bool, false, ◌||◌, Option, none, some, List, [], ◌∷◌, text_eq, if◌then◌else◌,
  any_of,
}
use bigrag.Base.Result.{Result, ok, err, ◌>>=◌}
use bigrag.Base.Json.{Value, null, boolean, natural, text, Fields, end, field, lookup}
use bigrag.Ingest.Types.{IngestionJob}

abbrev pub optional_text : Option String → Value
optional_text none = null
optional_text (some s) = text s

-- The dictionary that is written.
unfoldable pub serialize : IngestionJob → Fields
serialize job = field "document_id" (text job.document_id) (
    field "file_path" (text job.file_path) (
      field "collection_name" (text job.collection_name) (
        field "embedding_provider" (text job.embedding_provider) (
          field "embedding_model" (text job.embedding_model) (
            field "embedding_dimension" (natural job.embedding_dimension) (
              field "embedding_base_url" (optional_text job.embedding_base_url) (
                field "multimodal_enabled" (boolean job.multimodal_enabled) (
                  field "multimodal_enrichment_enabled" (boolean job.multimodal_enrichment_enabled)
                    (field "collection_epoch" (natural job.collection_epoch) (
                      field "document_epoch" (natural job.document_epoch) (
                        field "chunk_size" (natural job.chunk_size) (
                          field "chunk_overlap" (natural job.chunk_overlap) (
                            field "chunk_strategy" (text job.chunk_strategy) (
                              field "tenant_field" (optional_text job.tenant_field) (
                                field "attempt" (natural job.attempt) (
                                  field "max_attempts" (natural job.max_attempts) (
                                    field "admission_released" (boolean job.admission_released)
                                      (field "job_id" (text job.job_id) end))))))))))))))))))

-- The names of the dataclass's fields.
abbrev required_fields : List String
required_fields =
    "document_id" ∷ "file_path" ∷ "collection_name" ∷ "embedding_provider" ∷ "embedding_model"
    ∷ "embedding_dimension" ∷ "chunk_size" ∷ "chunk_overlap" ∷ []

abbrev defaulted_fields : List String
defaulted_fields =
    "chunk_strategy" ∷ "tenant_field" ∷ "embedding_base_url" ∷ "multimodal_enabled"
    ∷ "multimodal_enrichment_enabled" ∷ "collection_epoch" ∷ "document_epoch" ∷ "attempt"
    ∷ "max_attempts" ∷ "admission_released" ∷ "job_id" ∷ []

unfoldable pub is_known : String → Bool
is_known k = any_of (text_eq k) required_fields || any_of (text_eq k) defaulted_fields

-- `{k: v for k, v in payload.items() if k in known}`
unfoldable pub clean : Fields → Fields
clean end = end
clean (field k v d) = let rest = clean d in if is_known k then field k v rest else rest

-- A job as it was read.
pub record ReadJob : Type 0 where
  pub document_id : Value
  pub file_path : Value
  pub collection_name : Value
  pub embedding_provider : Value
  pub embedding_model : Value
  pub embedding_dimension : Value
  pub chunk_size : Value
  pub chunk_overlap : Value
  pub chunk_strategy : Value
  pub tenant_field : Value
  pub embedding_base_url : Value
  pub multimodal_enabled : Value
  pub multimodal_enrichment_enabled : Value
  pub collection_epoch : Value
  pub document_epoch : Value
  pub attempt : Value
  pub max_attempts : Value
  pub admission_released : Value
  pub job_id : Value

-- An argument without a default; the `TypeError` of a missing one carries its name.
abbrev pub required : String → Fields → Result String Value
required k d = elim (lookup k d) [ none ↦ err k | some v ↦ ok v ]

abbrev pub defaulted : String → Value → Fields → Value
defaulted k v d = elim (lookup k d) [ none ↦ v | some w ↦ w ]

-- `cls(**clean)`; `fresh` is the first eight digits of a new UUID.
unfoldable pub construct : String → Fields → Result String ReadJob
construct fresh d = do
  document_id ← required "document_id" d
  file_path ← required "file_path" d
  collection_name ← required "collection_name" d
  embedding_provider ← required "embedding_provider" d
  embedding_model ← required "embedding_model" d
  embedding_dimension ← required "embedding_dimension" d
  chunk_size ← required "chunk_size" d
  chunk_overlap ← required "chunk_overlap" d
  ok record {
    document_id = document_id;
    file_path = file_path;
    collection_name = collection_name;
    embedding_provider = embedding_provider;
    embedding_model = embedding_model;
    embedding_dimension = embedding_dimension;
    chunk_size = chunk_size;
    chunk_overlap = chunk_overlap;
    chunk_strategy = defaulted "chunk_strategy" (text "paragraph") d;
    tenant_field = defaulted "tenant_field" null d;
    embedding_base_url = defaulted "embedding_base_url" null d;
    multimodal_enabled = defaulted "multimodal_enabled" (boolean false) d;
    multimodal_enrichment_enabled = defaulted "multimodal_enrichment_enabled" (boolean false) d;
    collection_epoch = defaulted "collection_epoch" (natural 0) d;
    document_epoch = defaulted "document_epoch" (natural 0) d;
    attempt = defaulted "attempt" (natural 0) d;
    max_attempts = defaulted "max_attempts" (natural 3) d;
    admission_released = defaulted "admission_released" (boolean false) d;
    job_id = defaulted "job_id" (text fresh) d;
  }

unfoldable pub deserialize : String → Fields → Result String ReadJob
deserialize fresh payload = construct fresh (clean payload)

-- A job of the program, as a reader sees it.
abbrev pub as_read : IngestionJob → ReadJob
as_read job = record {
  document_id = text job.document_id;
  file_path = text job.file_path;
  collection_name = text job.collection_name;
  embedding_provider = text job.embedding_provider;
  embedding_model = text job.embedding_model;
  embedding_dimension = natural job.embedding_dimension;
  chunk_size = natural job.chunk_size;
  chunk_overlap = natural job.chunk_overlap;
  chunk_strategy = text job.chunk_strategy;
  tenant_field = optional_text job.tenant_field;
  embedding_base_url = optional_text job.embedding_base_url;
  multimodal_enabled = boolean job.multimodal_enabled;
  multimodal_enrichment_enabled = boolean job.multimodal_enrichment_enabled;
  collection_epoch = natural job.collection_epoch;
  document_epoch = natural job.document_epoch;
  attempt = natural job.attempt;
  max_attempts = natural job.max_attempts;
  admission_released = boolean job.admission_released;
  job_id = text job.job_id;
}

-- `{**extra, **d}` for keys that `d` does not have
unfoldable pub prepend : Fields → Fields → Fields
prepend end d = d
prepend (field k v extra) d = field k v (prepend extra d)

-- No key is a field of the dataclass.
abbrev pub IsForeign : Fields → Type 0
IsForeign end = Unit
IsForeign (field k v d) = (is_known k ≡ false) × IsForeign d

clean-prepend : (extra d : Fields) → IsForeign extra → clean (prepend extra d) ≡ clean d
unfolding clean prepend
clean-prepend end d h = refl
clean-prepend (field k v extra) d h = rw (h.0) (clean-prepend extra d h.1)

clean-serialize : (job : IngestionJob) → clean (serialize job) ≡ serialize job
unfolding clean serialize is_known
clean-serialize job = refl

construct-serialize :
    (fresh : String) (job : IngestionJob) → construct fresh (serialize job) ≡ ok (as_read job)
unfolding construct serialize lookup
construct-serialize fresh job = refl

-- A job that was serialised is read back with every field, also when keys that are no fields of a job
-- were added to its JSON.
pub deserialize-serialize :
    (fresh : String) (job : IngestionJob) (extra : Fields)
    → IsForeign extra
    → deserialize fresh (prepend extra (serialize job)) ≡ ok (as_read job)
unfolding deserialize
deserialize-serialize fresh job extra h =
    rw (clean-prepend extra (serialize job) h, clean-serialize job) (construct-serialize fresh job)
