-- ===== src/Documents/Examples.antt =====
-- The documents of internal/documents/service.go, run on small inputs.
use ai_workflow.Base.{
  suc, ◌≡◌, refl, String, some, List, [], ◌∷◌, All, ok, err, eq_iff, trim_space, is_blank,
}
use Prim.Native.String as Text
use ai_workflow.Base.Text.{is_space}
use ai_workflow.Base.Words.{fields, replace_crlf}
use ai_workflow.Audit.{Sources, Journal, draw_id, read_clock}
use ai_workflow.Documents.Chunking.{chunk_text, add_words}
use ai_workflow.Documents.Chunking.Packing.{all_words}
use ai_workflow.Documents.Chunking.Sizes.{IsPiece, Full, chunk_text-sizes}
use ai_workflow.Documents.Paths.{base, extension, before_semicolon}
use ai_workflow.Documents.Created.{contents}
use ai_workflow.Documents.Reading.{words_kept, create-get}
use ai_workflow.Documents.{
  Chunk, Document, CreateParams, Services, ingested, not_found, empty_store, create, get,
  list_chunks, chunk_parts, build_chunks, make_chunk, make_document, create_named, create_drawn,
  create_read, create_stored, create_built, supported_content_type, normalize_content_type,
}

abbrev sources : Sources
sources = record { new_id = λ n. ok "id"; now = λ n. suc n }

abbrev services : Services
services = record {
  sources = sources;
  to_lower = λ s. s;
  join_path = λ a b. Text.◌++◌ a (Text.◌++◌ "/" b);
  put = λ key content. ok (record { size_bytes = Text.len content; checksum = "sum" });
}

abbrev journal : Journal
journal = record { ids_drawn = 0; clock_reads = 0; events = [] }

abbrev params : CreateParams
params = record {
  filename = " docs/notes.txt ";
  content_type = "text/plain; charset=utf-8";
  content = some (ok "one two\r\nthree");
}

chunks_of_nine :
    chunk_text "one two\r\nthree incomprehensible a" 9
    ≡ "one two" ∷ "three" ∷ "incomprehensible" ∷ "a" ∷ []
unfolding chunk_text add_words fields replace_crlf is_space
chunks_of_nine = refl

abbrev document : Document
document = record {
  id = "id";
  tenant_id = "acme";
  filename = "notes.txt";
  content_type = "text/plain";
  size_bytes = 14;
  checksum = "sum";
  object_key = "acme/id.txt";
  status = ingested;
  created_at = 1;
  ingested_at = 1;
  chunk_count = 1;
}

creates : (create services "acme" params empty_store journal).0 ≡ ok document
unfolding create create_named create_drawn create_read create_stored create_built build_chunks
    chunk_parts make_chunk make_document supported_content_type normalize_content_type base
    extension before_semicolon trim_space is_blank draw_id read_clock chunk_text add_words fields
    replace_crlf
creates = refl

chunk_text-sizes_example :
    All (IsPiece 9) (chunk_text "one two\r\nthree" 9) × Full 9 (chunk_text "one two\r\nthree" 9)
chunk_text-sizes_example = chunk_text-sizes "one two\r\nthree" 9

create-get_example :
    (get (create services "acme" params empty_store journal).1 "acme" "id" ≡ ok document)
    × ((text : String) × (chunks : List Chunk) × (params.content ≡ some (ok text))
        × (list_chunks (create services "acme" params empty_store journal).1 "acme" "id"
            ≡ ok chunks)
        × (all_words (contents chunks) ≡ words_kept document text))
    × (get (create services "acme" params empty_store journal).1 "other" "id" ≡ err not_found)
    × (get (create services "acme" params empty_store journal).1 "acme" "id2"
        ≡ get empty_store "acme" "id2")
unfolding is_blank trim_space
create-get_example =
    create-get services "acme" "other" "id2" params empty_store journal document creates refl
      (λ e. absurd (cc ((eq_iff "acme" "other").1 e))) (λ e. absurd (cc ((eq_iff "id" "id2").1 e)))
