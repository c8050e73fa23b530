-- ===== src/Documents/Reading.antt =====
-- What the readers of internal/documents/service.go find after `Create`.
use ai_workflow.Base.{
  ℕ, suc, ◌≡◌, ◌≢◌, refl, ◌∙◌, inl, inr, String, false, Option, some, List, [], ◌∷◌, arith,
  if◌then◌else◌, Bool-cases, Option-cases, All, Result, ok, err, eq_iff, eq_refl, is_blank,
}
use ai_workflow.Base.Dict.{lookup, lookup_or, lookup-insert}
use ai_workflow.Base.Words.{fields}
use ai_workflow.Audit.{Journal}
use ai_workflow.Documents.Chunking.{chunk_text}
use ai_workflow.Documents.Chunking.Packing.{all_words, all_words-chunk_text}
use ai_workflow.Documents.{
  Error, Document, Chunk, CreateParams, Store, Services, not_found, put_document, is_text, create,
  get, get_by_id, list_chunks, chunks_by_id, default_chunk_size,
}
use ai_workflow.Documents.Created.{ChunksOf, IsSound, Created, Ends, contents, create-Ends}

Ends-ok :
    (tenant_id : String) (content : Option (Result String String)) (s : Store) (d : Document)
    → (r : Result Error Document × Store × Journal) → Ends tenant_id content s r
    → r.0 ≡ ok d
    → Created tenant_id content s d r.1
Ends-ok tenant_id content s d (err e, s', j) h same = absurd (ground (arith, same))
Ends-ok tenant_id content s d (ok d', s', j) h same =
    let e : d ≡ d' = ground (arith, same) in rw e h

create-given :
    (env : Services) (tenant_id : String) (params : CreateParams) (s : Store) (j : Journal)
    → (d : Document) → (create env tenant_id params s j).0 ≡ ok d
    → is_blank tenant_id ≡ false
unfolding create
create-given env tenant_id params s j d created = elim (Bool-cases (is_blank tenant_id)) [
  | inl blank ↦ absurd (ground (arith, blank, created))
  | inr given ↦ given
]

-- The words that the chunks of a document hold.
abbrev pub words_kept : Document → String → List String
words_kept d text = if is_text d.content_type then fields text else []

all_words-parts :
    (d : Document) (text : String) (cs : List Chunk)
    → contents cs ≡ (if is_text d.content_type then chunk_text text default_chunk_size else [])
    → all_words (contents cs) ≡ words_kept d text
all_words-parts d text cs e = elim (Bool-cases (is_text d.content_type)) [
  | inl yes_text ↦ rw (e, yes_text) (all_words-chunk_text text default_chunk_size)
  | inr other ↦ rw (e, other) refl
]

module _ (d : Document) (cs : List Chunk) (s : Store) where
  get-put :
      (tenant_id : String)
      → is_blank tenant_id ≡ false
      → d.tenant_id ≡ tenant_id
      → get (put_document d cs s) tenant_id d.id ≡ ok d
  unfolding get get_by_id put_document
  get-put tenant_id given owner =
      ground
        (arith, lookup-insert d.id d.id d s.documents, eq_refl d.id, eq_iff d.tenant_id tenant_id)

  chunks-put :
      (tenant_id : String)
      → is_blank tenant_id ≡ false
      → d.tenant_id ≡ tenant_id
      → list_chunks (put_document d cs s) tenant_id d.id ≡ ok cs
  unfolding list_chunks chunks_by_id get_by_id put_document
  chunks-put tenant_id given owner = ground (
    arith,
    lookup-insert d.id d.id d s.documents,
    lookup-insert d.id d.id cs s.chunks,
    eq_refl d.id,
    eq_iff d.tenant_id tenant_id,
  )

  get-put_foreign :
      (other : String)
      → is_blank other ≡ false
      → d.tenant_id ≢ other
      → get (put_document d cs s) other d.id ≡ err not_found
  unfolding get get_by_id put_document
  get-put_foreign other given foreign =
      ground (arith, lookup-insert d.id d.id d s.documents, eq_refl d.id, eq_iff d.tenant_id other)

  get-put_ne :
      (tenant_id id : String)
      → d.id ≢ id
      → get (put_document d cs s) tenant_id id ≡ get s tenant_id id
  unfolding get get_by_id put_document
  get-put_ne tenant_id id fresh =
      ground (arith, lookup-insert d.id id d s.documents, eq_iff d.id id)

-- After a successful Create its tenant gets the document and chunks whose words are, in order,
-- those of a text that was uploaded, and none for another type; every other tenant is told that
-- there is no such document, and documents under other ids are as before.
pub create-get :
    (env : Services) (tenant_id other other_id : String) (params : CreateParams) (s : Store)
    → (j : Journal) (d : Document) → (create env tenant_id params s j).0 ≡ ok d
    → is_blank other ≡ false
    → tenant_id ≢ other
    → d.id ≢ other_id
    → (get (create env tenant_id params s j).1 tenant_id d.id ≡ ok d)
      × ((text : String) × (chunks : List Chunk) × (params.content ≡ some (ok text))
          × (list_chunks (create env tenant_id params s j).1 tenant_id d.id ≡ ok chunks)
          × (all_words (contents chunks) ≡ words_kept d text))
      × (get (create env tenant_id params s j).1 other d.id ≡ err not_found)
      × (get (create env tenant_id params s j).1 tenant_id other_id ≡ get s tenant_id other_id)
create-get env tenant_id other other_id params s j d created given foreign fresh =
    let made =
      Ends-ok tenant_id params.content s d (create env tenant_id params s j)
        (create-Ends env tenant_id params s j) created in
    let named = create-given env tenant_id params s j d created in
    let cs = made.chunks in
    let foreign' : d.tenant_id ≢ other = rw made.owner foreign in
    rw made.stored (
      get-put d cs s tenant_id named made.owner,
      (
        made.text,
        cs,
        made.read,
        chunks-put d cs s tenant_id named made.owner,
        all_words-parts d made.text cs made.parts,
      ),
      get-put_foreign d cs s other given foreign',
      get-put_ne d cs s tenant_id other_id fresh,
    )

ChunksOf-owned :
    (d : Document) (tenant_id : String) (index : ℕ) (cs : List Chunk)
    → d.tenant_id ≡ tenant_id
    → ChunksOf d index cs
    → All (λ c. c.tenant_id ≡ tenant_id) cs
ChunksOf-owned d tenant_id index [] e h = tt
ChunksOf-owned d tenant_id index (c ∷ cs) e h =
    (h.1 ∙ e, ChunksOf-owned d tenant_id (suc index) cs e h.4)

-- The chunks that a tenant lists are its own.
pub list_chunks-owned :
    (s : Store) (tenant_id id : String) (cs : List Chunk)
    → IsSound s
    → list_chunks s tenant_id id ≡ ok cs
    → All (λ c. c.tenant_id ≡ tenant_id) cs
unfolding list_chunks chunks_by_id get_by_id
list_chunks-owned s tenant_id id cs sound h = elim (Option-cases (lookup id s.documents)) [
  | inl missing ↦ absurd (ground (arith, h, missing))
  | inr (d, found) ↦
      let e : cs ≡ lookup_or [] id s.chunks = ground (arith, h, found) in
      let owner : d.tenant_id ≡ tenant_id =
        ground (arith, h, found, eq_iff d.tenant_id tenant_id) in
      rw e (
        ChunksOf-owned d tenant_id 0 (lookup_or [] id s.chunks) owner
          (sound.stored id d found).chunks)
]
