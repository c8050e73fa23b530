-- ===== src/Documents.antt =====
-- internal/documents/service.go: documents, their chunks, the in-memory repository and the service.
-- The reader of an upload is what reading it gives; a text document is taken to be valid UTF-8.
pub mod Chunking
pub mod Paths
pub mod Created
pub mod Reading
mod Examples
use ai_workflow.Base.{
  ℕ, suc, String, Bool, not, ◌||◌, Option, none, some, List, [], ◌∷◌, ltb, if◌then◌else◌, length,
  Result, ok, err, ◌==◌, trim_space, is_blank,
}
use Prim.Native.String as Text
use Prim.Native.String.{len}
use text.Mathlib.Text.{starts_with}
use ai_workflow.Base.Lists.{map_ok}
use ai_workflow.Base.Dict.{Dict, lookup, lookup_or, insert}
use ai_workflow.Base.Words.{fields}
use ai_workflow.Audit.{Sources, Journal, draw_id, read_clock}
use ai_workflow.Documents.Chunking.{chunk_text}
use ai_workflow.Documents.Paths.{base, extension, before_semicolon}

pub data Error : Type 0 where
  not_found invalid_tenant invalid_filename missing_content unsupported_content_type : Error
  generate_document_id read_content store_object generate_chunk_id : String → Error

-- `Error()`
pub error_text : Error → String
error_text not_found = "document not found"
error_text invalid_tenant = "invalid tenant"
error_text invalid_filename = "invalid filename"
error_text missing_content = "missing content"
error_text unsupported_content_type = "unsupported content type"
error_text (generate_document_id e) = Text.◌++◌ "generate document id: " e
error_text (read_content e) = Text.◌++◌ "read document content: " e
error_text (store_object e) = Text.◌++◌ "store document object: " e
error_text (generate_chunk_id e) = Text.◌++◌ "generate chunk id: " e

pub data Status : Type 0 where
  uploaded ingested : Status

abbrev pub default_chunk_size : ℕ
default_chunk_size = 800

-- The zero time stands for a document that is not ingested.
pub record Document : Type 0 where
  pub id : String
  pub tenant_id : String
  pub filename : String
  pub content_type : String
  pub size_bytes : ℕ
  pub checksum : String
  pub object_key : String
  pub status : Status
  pub created_at : ℕ
  pub ingested_at : ℕ
  pub chunk_count : ℕ

pub record Chunk : Type 0 where
  pub id : String
  pub document_id : String
  pub tenant_id : String
  pub chunk_index : ℕ
  pub content : String
  pub token_estimate : ℕ
  pub created_at : ℕ

pub record CreateParams : Type 0 where
  pub filename : String
  pub content_type : String
  pub content : Option (Result String String)

pub record StoredObject : Type 0 where
  pub size_bytes : ℕ
  pub checksum : String

-- `MemoryRepository`
pub record Store : Type 0 where
  pub documents : Dict Document
  pub chunks : Dict (List Chunk)

abbrev pub empty_store : Store
empty_store = record { documents = []; chunks = [] }

-- What the service is given: ids and clock, `strings.ToLower` and `path.Join` of the standard
-- library, and the object store with the error that it may return.
pub record Services : Type 0 where
  pub sources : Sources
  pub to_lower : String → String
  pub join_path : String → String → String
  pub put : String → String → Result String StoredObject

-- `MemoryRepository.Create`
unfoldable pub put_document : Document → List Chunk → Store → Store
put_document document chunks s = record s {
  documents = insert document.id document s.documents;
  chunks = insert document.id chunks s.chunks;
}

abbrev pub of_tenant : String → Option Document → Result Error Document
of_tenant tenant_id none = err not_found
of_tenant tenant_id (some d) = if d.tenant_id == tenant_id then ok d else err not_found

-- `MemoryRepository.GetByID`
unfoldable pub get_by_id : Store → String → String → Result Error Document
get_by_id s tenant_id document_id = of_tenant tenant_id (lookup document_id s.documents)

-- `MemoryRepository.ListChunks`
unfoldable pub chunks_by_id : Store → String → String → Result Error (List Chunk)
unfolding get_by_id
chunks_by_id s tenant_id document_id =
    map_ok (λ (_ : Document). lookup_or [] document_id s.chunks) (get_by_id s tenant_id document_id)

-- `Service.Get`
unfoldable pub get : Store → String → String → Result Error Document
get s tenant_id document_id =
    if is_blank tenant_id then err invalid_tenant else get_by_id s tenant_id document_id

-- `Service.ListChunks`
unfoldable pub list_chunks : Store → String → String → Result Error (List Chunk)
list_chunks s tenant_id document_id =
    if is_blank tenant_id then err invalid_tenant else chunks_by_id s tenant_id document_id

abbrev pub is_text : String → Bool
is_text content_type = starts_with content_type "text/"

unfoldable pub supported_content_type : String → Bool
supported_content_type content_type = is_text content_type || content_type == "application/pdf"

-- What the chunks of one document share.
pub record Origin : Type 0 where
  pub document_id : String
  pub tenant_id : String
  pub created_at : ℕ

module _ (env : Services) where
  unfoldable pub normalize_content_type : String → String
  normalize_content_type content_type = env.to_lower (before_semicolon (trim_space content_type))

  unfoldable pub make_chunk : Origin → ℕ → String → String → Chunk
  make_chunk origin index part id = record {
    id = id;
    document_id = origin.document_id;
    tenant_id = origin.tenant_id;
    chunk_index = index;
    content = part;
    token_estimate = length (fields part);
    created_at = origin.created_at;
  }

  -- The loop of `buildChunks` from an index on.
  unfoldable pub chunk_parts :
      Origin → ℕ → List String → Journal → Result Error (List Chunk) × Journal
  chunk_parts origin index [] j = (ok [], j)
  chunk_parts origin index (part ∷ parts) j =
      let (drawn, j') = draw_id env.sources j in
      elim drawn [
        | err e ↦ (err (generate_chunk_id e), j')
        | ok id ↦
            let (chunks, j'') = chunk_parts origin (suc index) parts j' in
            (map_ok (◌∷◌ (make_chunk origin index part id)) chunks, j'')
      ]

  unfoldable pub build_chunks :
      Origin → String → String → Journal → Result Error (List Chunk) × Journal
  build_chunks origin content_type content j =
      if is_text content_type
      then chunk_parts origin 0 (chunk_text content default_chunk_size) j
      else (ok [], j)

  -- The document that is described, with its number of chunks.
  unfoldable pub make_document :
      Origin → String → String → String → StoredObject → List Chunk → Document
  make_document origin filename content_type object_key stored chunks = record {
    id = origin.document_id;
    tenant_id = origin.tenant_id;
    filename = filename;
    content_type = content_type;
    size_bytes = stored.size_bytes;
    checksum = stored.checksum;
    object_key = object_key;
    status = if ltb 0 (length chunks) then ingested else uploaded;
    created_at = origin.created_at;
    ingested_at = if ltb 0 (length chunks) then origin.created_at else 0;
    chunk_count = length chunks;
  }

  unfoldable pub create_built :
      Origin
      → String
      → String
      → String
      → StoredObject
      → Store
      → Result Error (List Chunk) × Journal
      → Result Error Document × Store × Journal
  unfolding make_document put_document
  create_built origin filename content_type object_key stored s (err e, j) = (err e, s, j)
  create_built origin filename content_type object_key stored s (ok chunks, j) =
      let document = make_document origin filename content_type object_key stored chunks in
      (ok document, put_document document chunks s, j)

  unfoldable pub create_stored :
      String
      → String
      → String
      → String
      → String
      → String
      → Store
      → Journal
      → Result String StoredObject
      → Result Error Document × Store × Journal
  create_stored tenant_id id filename content_type object_key content s j (err e) =
      (err (store_object e), s, j)
  create_stored tenant_id id filename content_type object_key content s j (ok stored) =
      let (now, j') = read_clock env.sources j in
      let origin : Origin = record { document_id = id; tenant_id = tenant_id; created_at = now } in
      create_built origin filename content_type object_key stored s
        (build_chunks origin content_type content j')

  unfoldable pub create_read :
      String
      → String
      → String
      → String
      → Store
      → Journal
      → Result String String
      → Result Error Document × Store × Journal
  create_read tenant_id id filename content_type s j (err e) = (err (read_content e), s, j)
  create_read tenant_id id filename content_type s j (ok content) =
      let object_key = env.join_path tenant_id (Text.◌++◌ id (extension filename)) in
      create_stored tenant_id id filename content_type object_key content s j
        (env.put object_key content)

  unfoldable pub create_drawn :
      String
      → String
      → String
      → Result String String
      → Store
      → Result String String × Journal
      → Result Error Document × Store × Journal
  create_drawn tenant_id filename content_type content s (err e, j) =
      (err (generate_document_id e), s, j)
  create_drawn tenant_id filename content_type content s (ok id, j) =
      create_read tenant_id id filename content_type s j content

  unfoldable pub create_named :
      String
      → String
      → String
      → Option (Result String String)
      → Store
      → Journal
      → Result Error Document × Store × Journal
  create_named tenant_id filename content_type none s j = (err missing_content, s, j)
  create_named tenant_id filename content_type (some content) s j =
      if supported_content_type content_type
      then create_drawn tenant_id filename content_type content s (draw_id env.sources j)
      else (err unsupported_content_type, s, j)

  -- `Service.Create`
  unfoldable pub create :
      String → CreateParams → Store → Journal → Result Error Document × Store × Journal
  create tenant_id params s j =
      let filename = base (trim_space params.filename) in
      if is_blank tenant_id
      then (err invalid_tenant, s, j)
      else if filename == "" || filename == "."
      then (err invalid_filename, s, j)
      else create_named tenant_id filename (normalize_content_type params.content_type)
          params.content s j
