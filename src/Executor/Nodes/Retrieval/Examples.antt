-- ===== src/Executor/Nodes/Retrieval/Examples.antt =====
-- The retrieval of internal/executor/nodes.go, run on small inputs.
use ai_workflow.Base.{◌≡◌, refl, List, [], ◌∷◌, arith, All, ok, trim_space, is_blank}
use ai_workflow.Base.Dict.{Dict, lookup, insert}
use ai_workflow.Base.Int.{pos, negsuc}
use ai_workflow.Base.Value.{Value, str, num, signed, arr, element, done}
use ai_workflow.Base.Text.{is_space}
use ai_workflow.Base.Words.{fields}
use ai_workflow.Base.Sorting.{sort_by}
use ai_workflow.Documents.{
  Document, Chunk, Store, ingested, empty_store, list_chunks, chunks_by_id, get_by_id, put_document,
}
use ai_workflow.Documents.Created
use ai_workflow.Executor.{Env}
use ai_workflow.Executor.Config.{any_string, string_config}
use ai_workflow.Executor.Nodes.Retrieval.{
  Scored, execute_retrieval, query_of, int_config, string_slice_config, lexical_score,
  retrieval_value, truncate, collect, score_chunks, ranks_before,
}
use ai_workflow.Executor.Nodes.Retrieval.Ranking.{
  Retrieved, execute_retrieval-Retrieved, execute_retrieval-owned,
}
use ai_workflow.Samples

abbrev apples : Chunk
apples = record {
  id = "c1";
  document_id = "d";
  tenant_id = "acme";
  chunk_index = 0;
  content = "apples";
  token_estimate = 1;
  created_at = 1;
}

abbrev pears : Chunk
pears = record {
  id = "c2";
  document_id = "d";
  tenant_id = "acme";
  chunk_index = 1;
  content = "pears";
  token_estimate = 1;
  created_at = 1;
}

abbrev document : Document
document = record {
  id = "d";
  tenant_id = "acme";
  filename = "f";
  content_type = "text/plain";
  size_bytes = 12;
  checksum = "";
  object_key = "";
  status = ingested;
  created_at = 1;
  ingested_at = 1;
  chunk_count = 2;
}

abbrev docs : Store
docs = put_document document (apples ∷ pears ∷ []) empty_store

abbrev env : Env
env = Samples.env

abbrev config : Dict Value
config = ("document_ids", arr (element (str " d ") done)) ∷ ("limit", num 1) ∷ []

abbrev input : Dict Value
input = ("query", str "pears ") ∷ []

abbrev best : List Scored
best = record { chunk = pears; score = 1 } ∷ []

finds : execute_retrieval env docs "acme" config input ≡ ok (retrieval_value "pears" best)
unfolding execute_retrieval query_of int_config string_slice_config lexical_score fields sort_by
    truncate list_chunks chunks_by_id get_by_id lookup string_config any_string trim_space is_blank
    score_chunks collect ranks_before put_document insert is_space
finds = refl

-- A limit of -2.5 is taken as -2, which is none.
limits :
    (int_config (("limit", signed (negsuc 1) "-2.5") ∷ []) "limit" (pos 3) ≡ negsuc 1)
    × (truncate (negsuc 1) best ≡ best)
unfolding int_config lookup truncate
limits = (refl, refl)

execute_retrieval-Retrieved_example :
    Retrieved env docs "acme" config input (retrieval_value "pears" best)
execute_retrieval-Retrieved_example =
    execute_retrieval-Retrieved env docs "acme" config input (retrieval_value "pears" best) finds

docs-IsSound : Created.IsSound docs
unfolding put_document lookup insert fields is_space
docs-IsSound =
    Created.put_document-IsSound document (apples ∷ pears ∷ []) empty_store
      (record {
        keyed = refl;
        counted = refl;
        status = refl;
        chunks = ((refl, refl, refl, refl, (refl, refl, refl, refl, tt)));
      })
      (record { stored = λ id d found. absurd (ground (arith, found)) })

execute_retrieval-owned_example :
    (matches : List Scored) × (retrieval_value "pears" best
      ≡ retrieval_value (query_of env config input) matches)
    × All (λ r. r.chunk.tenant_id ≡ "acme") matches
execute_retrieval-owned_example =
    execute_retrieval-owned env docs "acme" config input (retrieval_value "pears" best) docs-IsSound
      finds
