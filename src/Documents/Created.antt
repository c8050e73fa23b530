-- ===== src/Documents/Created.antt =====
-- What `Create` of internal/documents/service.go leaves in the repository.
use ai_workflow.Base.{
  ℕ, suc, ◌≡◌, refl, sym, ap, inl, inr, String, ◌||◌, Option, none, some, List, [], ◌∷◌, arith, ltb,
  if◌then◌else◌, Bool-cases, length, Result, ok, err, ◌==◌, eq_iff, trim_space, is_blank,
}
use mathlib.Core.Path.{subst}
use Prim.Native.String as Text
use ai_workflow.Base.{if_rule}
use ai_workflow.Base.Lists.{map_ok, Result-cases}
use ai_workflow.Base.Dict.{lookup, lookup_or, lookup-insert}
use ai_workflow.Base.Words.{fields}
use ai_workflow.Audit.{Journal, draw_id, read_clock}
use ai_workflow.Documents.Chunking.{chunk_text}
use ai_workflow.Documents.Paths.{base, extension}
use ai_workflow.Documents.{
  Error, Document, Chunk, CreateParams, StoredObject, Store, Services, Origin, uploaded, ingested,
  invalid_tenant, invalid_filename, unsupported_content_type, default_chunk_size, put_document,
  is_text, supported_content_type, make_chunk, chunk_parts, build_chunks, make_document,
  create_built, create_stored, create_read, create_drawn, create_named, normalize_content_type,
  create,
}

-- The chunks are numbered from an index on, and belong to the document.
abbrev pub ChunksOf : Document → ℕ → List Chunk → Type 0
ChunksOf d index [] = Unit
ChunksOf d index (c ∷ cs) =
    (c.document_id ≡ d.id)
    × (c.tenant_id ≡ d.tenant_id)
    × (c.chunk_index ≡ index)
    × (c.token_estimate ≡ length (fields c.content))
    × ChunksOf d (suc index) cs

pub record IsStored (id : String) (d : Document) (cs : List Chunk) : Type 0 where
  pub keyed : d.id ≡ id
  pub counted : d.chunk_count ≡ length cs
  pub status : d.status ≡ (if ltb 0 (length cs) then ingested else uploaded)
  pub chunks : ChunksOf d 0 cs

-- Documents are stored under their ids, with the chunks that they count.
pub record IsSound (s : Store) : Type 0 where
  pub stored :
      (id : String) (d : Document)
      → lookup id s.documents ≡ some d
      → IsStored id d (lookup_or [] id s.chunks)

abbrev pub contents : List Chunk → List String
contents [] = []
contents (c ∷ cs) = c.content ∷ contents cs

-- What a document that was created came from.
pub record Created (tenant_id : String) (content : Option (Result String String)) (s : Store)
    (d : Document) (s' : Store) : Type 0 where
  pub text : String
  pub chunks : List Chunk
  pub read : content ≡ some (ok text)
  pub owner : d.tenant_id ≡ tenant_id
  pub parts :
      contents chunks ≡ (if is_text d.content_type then chunk_text text default_chunk_size else [])
  pub described : IsStored d.id d chunks
  pub stored : s' ≡ put_document d chunks s

-- A failed call leaves the repository as it was.
abbrev pub Ends :
    String
    → Option (Result String String)
    → Store
    → Result Error Document × Store × Journal
    → Type 0
Ends tenant_id content s (err e, s', j) = s' ≡ s
Ends tenant_id content s (ok d, s', j) = Created tenant_id content s d s'

-- Chunks that were made are those of the parts.
abbrev Made : Document → ℕ → List String → Result Error (List Chunk) × Journal → Type 0
Made d index parts (err e, j) = Unit
Made d index parts (ok cs, j) = ChunksOf d index cs × (contents cs ≡ parts)

Made-cons :
    (d : Document) (c : Chunk) (index : ℕ) (parts : List String)
    → (r : Result Error (List Chunk) × Journal) → c.document_id ≡ d.id
    → c.tenant_id ≡ d.tenant_id
    → c.chunk_index ≡ index
    → c.token_estimate ≡ length (fields c.content)
    → Made d (suc index) parts r
    → Made d index (c.content ∷ parts) (map_ok (◌∷◌ c) r.0, r.1)
Made-cons d c index parts (err e, j) same owner numbered counted h = tt
Made-cons d c index parts (ok cs, j) same owner numbered counted h =
    ((same, owner, numbered, counted, h.0), ap (◌∷◌ c.content) h.1)

module _ (env : Services) where
  chunk_parts-Made :
      (origin : Origin) (d : Document) (index : ℕ) (parts : List String) (j : Journal)
      → d.id ≡ origin.document_id
      → d.tenant_id ≡ origin.tenant_id
      → Made d index parts (chunk_parts env origin index parts j)
  unfolding chunk_parts make_chunk draw_id
  chunk_parts-Made origin d index [] j same owner = (tt, refl)
  chunk_parts-Made origin d index (part ∷ parts) j same owner =
      let (drawn, j') = draw_id env.sources j in
      elim (Result-cases drawn) [
        | inl (id, e) ↦ rw e (
            Made-cons d (make_chunk env origin index part id) index parts
              (chunk_parts env origin (suc index) parts j') (sym same) (sym owner) refl refl
              (chunk_parts-Made origin d (suc index) parts j' same owner))
        | inr (e', e) ↦ rw e tt
      ]

  build_chunks-Made :
      (origin : Origin) (d : Document) (content_type content : String) (j : Journal)
      → d.id ≡ origin.document_id
      → d.tenant_id ≡ origin.tenant_id
      → Made d 0
          (if is_text content_type then chunk_text content default_chunk_size else [])
          (build_chunks env origin content_type content j)
  unfolding build_chunks
  build_chunks-Made origin d content_type content j same owner =
      elim (Bool-cases (is_text content_type)) [
        | inl text ↦
            rw text
              (chunk_parts-Made origin d 0 (chunk_text content default_chunk_size) j same owner)
        | inr other ↦ rw other (tt, refl)
      ]

  module _ (tenant_id : String) (content : Option (Result String String)) (s : Store) where
    create_built-Ends :
        (origin : Origin) (filename content_type object_key : String) (stored : StoredObject)
        → (text : String) (r : Result Error (List Chunk) × Journal) → content ≡ some (ok text)
        → origin.tenant_id ≡ tenant_id
        → ((d : Document)
            → d.id ≡ origin.document_id
            → d.tenant_id ≡ origin.tenant_id
            → Made d 0 (if is_text content_type then chunk_text text default_chunk_size else []) r)
        → Ends tenant_id content s
            (create_built env origin filename content_type object_key stored s r)
    unfolding create_built make_document
    create_built-Ends origin filename content_type object_key stored text (err e, j) read owner
          made =
        refl
    create_built-Ends origin filename content_type object_key stored text (ok cs, j) read owner
          made =
        let d = make_document env origin filename content_type object_key stored cs in
        record {
          text = text;
          chunks = cs;
          read = read;
          owner = owner;
          parts = (made d refl refl).1;
          described = record {
            keyed = refl;
            counted = refl;
            status = refl;
            chunks = (made d refl refl).0;
          };
          stored = refl;
        }

    create_stored-Ends :
        (id filename content_type object_key text : String) (j : Journal)
        → (r : Result String StoredObject) → content ≡ some (ok text)
        → Ends tenant_id content s
            (create_stored env tenant_id id filename content_type object_key text s j r)
    unfolding create_stored
    create_stored-Ends id filename content_type object_key text j (err e) read = refl
    create_stored-Ends id filename content_type object_key text j (ok stored) read =
        let (now, j') = read_clock env.sources j in
        let origin : Origin = record {
          document_id = id;
          tenant_id = tenant_id;
          created_at = now;
        } in
        create_built-Ends origin filename content_type object_key stored text
          (build_chunks env origin content_type text j') read refl
          (λ d same owner. build_chunks-Made origin d content_type text j' same owner)

    create_read-Ends :
        (id filename content_type : String) (j : Journal) (c : Result String String)
        → content ≡ some c
        → Ends tenant_id content s (create_read env tenant_id id filename content_type s j c)
    unfolding create_read
    create_read-Ends id filename content_type j (err e) read = refl
    create_read-Ends id filename content_type j (ok text) read =
        let object_key = env.join_path tenant_id (Text.◌++◌ id (extension filename)) in
        create_stored-Ends id filename content_type object_key text j (env.put object_key text) read

    create_drawn-Ends :
        (filename content_type : String) (c : Result String String)
        → (drawn : Result String String × Journal) → content ≡ some c
        → Ends tenant_id content s (create_drawn env tenant_id filename content_type c s drawn)
    unfolding create_drawn
    create_drawn-Ends filename content_type c (err e, j) read = refl
    create_drawn-Ends filename content_type c (ok id, j) read =
        create_read-Ends id filename content_type j c read

    create_named-Ends :
        (filename content_type : String) (given : Option (Result String String)) (j : Journal)
        → content ≡ given
        → Ends tenant_id content s (create_named env tenant_id filename content_type given s j)
    unfolding create_named
    create_named-Ends filename content_type none j read = refl
    create_named-Ends filename content_type (some c) j read =
        if_rule (Ends tenant_id content s) (supported_content_type content_type)
          (create_drawn env tenant_id filename content_type c s (draw_id env.sources j))
          (err unsupported_content_type, s, j)
          (create_drawn-Ends filename content_type c (draw_id env.sources j) read) refl

  pub create-Ends :
      (tenant_id : String) (params : CreateParams) (s : Store) (j : Journal)
      → Ends tenant_id params.content s (create env tenant_id params s j)
  unfolding create
  create-Ends tenant_id params s j =
      let filename = base (trim_space params.filename) in
      let named =
        create_named env tenant_id filename (normalize_content_type env params.content_type)
          params.content s j in
      if_rule (Ends tenant_id params.content s) (is_blank tenant_id) (err invalid_tenant, s, j)
        (if filename == "" || filename == "." then (err invalid_filename, s, j) else named) refl
        (if_rule (Ends tenant_id params.content s) (filename == "" || filename == ".")
          (err invalid_filename, s, j) named refl
          (create_named-Ends tenant_id params.content s filename
            (normalize_content_type env params.content_type) params.content j refl))

-- A document that is put into a sound repository with its chunks leaves it sound.
pub put_document-IsSound :
    (d : Document) (cs : List Chunk) (s : Store)
    → IsStored d.id d cs
    → IsSound s
    → IsSound (put_document d cs s)
unfolding put_document
put_document-IsSound d cs s made h = record {
  stored = λ id d' found. elim (Bool-cases (d.id == id)) [
    | inl same ↦
        let e : d' ≡ d = ground (arith, found, lookup-insert d.id id d s.documents, same) in
        let k : id ≡ d.id = sym ((eq_iff d.id id).0 same) in
        let held : lookup_or [] id (put_document d cs s).chunks ≡ cs =
          ground (arith, lookup-insert d.id id cs s.chunks, same) in
        subst (IsStored id d') (sym held) (rw (e, k) made)
    | inr other ↦
        let held : lookup_or [] id (put_document d cs s).chunks ≡ lookup_or [] id s.chunks =
          ground (arith, lookup-insert d.id id cs s.chunks, other) in
        subst (IsStored id d') (sym held)
          (h.stored id d' (ground (arith, found, lookup-insert d.id id d s.documents, other)))
  ];
}

Ends-IsSound :
    (tenant_id : String) (content : Option (Result String String)) (s : Store)
    → (r : Result Error Document × Store × Journal) → Ends tenant_id content s r
    → IsSound s
    → IsSound r.1
Ends-IsSound tenant_id content s (err e, s', j) same h = rw same h
Ends-IsSound tenant_id content s (ok d, s', j) made h =
    rw made.stored (put_document-IsSound d made.chunks s made.described h)

-- Create keeps the repository sound: every document under its id, with as many chunks as it counts,
-- its status ingested exactly if there are any, and the chunks numbered in order and marked with
-- the document and its tenant.
pub create_document-IsSound :
    (env : Services) (tenant_id : String) (params : CreateParams) (s : Store) (j : Journal)
    → IsSound s
    → IsSound (create env tenant_id params s j).1
create_document-IsSound env tenant_id params s j h =
    Ends-IsSound tenant_id params.content s (create env tenant_id params s j)
      (create-Ends env tenant_id params s j) h
