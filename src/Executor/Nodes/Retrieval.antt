-- ===== src/Executor/Nodes/Retrieval.antt =====
-- `executeRetrieval` of internal/executor/nodes.go with its helpers: the chunks of documents that
-- match a query, the best first.
use ai_workflow.Base.{
  ℕ, ◌+◌, String, Bool, true, false, not, ◌&&◌, some, List, [], ◌∷◌, ◌++◌, ltb, leb, eqb,
  if◌then◌else◌, length, Result, ok, err, ◌==◌, trim_space,
}
pub mod Order
pub mod Complete
pub mod Ranking
mod Examples
use Prim.Native.Nat.{Ordering}
use Prim.Native.String as Text
use ai_workflow.Base.Int.{ℤ, pos, is_nonpositive, to_ℕ}
use ai_workflow.Base.Lists.{map_ok, take}
use ai_workflow.Base.Dict.{Dict, lookup, lookup_or}
use ai_workflow.Base.Value.{
  Value, Elements, null, num, signed, str, obj, arr, element, done, to_fields,
}
use ai_workflow.Base.Words.{fields}
use ai_workflow.Base.Sorting.{sort_by}
use ai_workflow.Documents.{Error, Chunk, Store, error_text, list_chunks}
use ai_workflow.Executor.{Env}
use ai_workflow.Executor.Config.{any_string, string_config}

-- `scoredChunk`
pub record Scored : Type 0 where
  pub chunk : Chunk
  pub score : ℕ

string_items : Env → Elements → List String
unfolding any_string
string_items env done = []
string_items env (element v vs) =
    let text = trim_space (any_string env v) in
    let rest = string_items env vs in if text == "" then rest else text ∷ rest

-- `stringSliceConfig` on decoded JSON, where a slice is an array.
unfoldable pub string_slice_config : Env → Dict Value → String → List String
unfolding string_items
string_slice_config env config key = elim (lookup key config) [
  | some (arr vs) ↦ string_items env vs
  | _ ↦ []
]

-- `intConfig`
unfoldable pub int_config : Dict Value → String → ℤ → ℤ
int_config config key fallback = elim (lookup key config) [
  | some (num n) ↦ pos n
  | some (signed z _) ↦ z
  | _ ↦ fallback
]

pub count_terms : Env → String → List String → ℕ
count_terms env content [] = 0
count_terms env content (term ∷ terms) =
    (if env.has_text content term then 1 else 0) + count_terms env content terms

unfoldable pub lexical_score : Env → String → String → ℕ
unfolding count_terms
lexical_score env query content =
    if query == "" then 1 else count_terms env (env.to_lower content) (fields query)

-- The loop over the chunks of a document.
pub score_chunks : Env → String → List Chunk → List Scored
score_chunks env query [] = []
score_chunks env query (c ∷ cs) =
    let score = lexical_score env query c.content in
    let rest = score_chunks env query cs in
    if not (query == "") && eqb score 0 then rest else record { chunk = c; score = score } ∷ rest

-- The loop over the ids of documents.
pub collect : Env → Store → String → String → List String → Result Error (List Scored)
collect env docs tenant_id query [] = ok []
collect env docs tenant_id query (id ∷ ids) = elim (list_chunks docs tenant_id id) [
  | err e ↦ err e
  | ok cs ↦ map_ok (◌++◌ (score_chunks env query cs)) (collect env docs tenant_id query ids)
]

-- The comparison of the results.
pub ranks_before : Scored → Scored → Bool
ranks_before a b =
    if ltb b.score a.score
    then true
    else if ltb a.score b.score
    then false
    else elim (Text.compare a.chunk.document_id b.chunk.document_id) [
      | Ordering.lt ↦ true
      | Ordering.gt ↦ false
      | Ordering.eq ↦ leb a.chunk.chunk_index b.chunk.chunk_index
    ]

unfoldable pub truncate : ℤ → List Scored → List Scored
truncate limit results =
    if not (is_nonpositive limit) && ltb (to_ℕ limit) (length results)
    then take (to_ℕ limit) results
    else results

-- The fields of a chunk under the names of its JSON encoding.
abbrev pub chunk_value : Chunk → Value
chunk_value c = obj (
    to_fields (
      ("id", str c.id)
      ∷ ("document_id", str c.document_id)
      ∷ ("tenant_id", str c.tenant_id)
      ∷ ("chunk_index", num c.chunk_index)
      ∷ ("content", str c.content)
      ∷ ("token_estimate", num c.token_estimate)
      ∷ ("created_at", num c.created_at)
      ∷ []))

abbrev pub match_values : List Scored → Elements
match_values [] = done
match_values (r ∷ rs) = element (chunk_value r.chunk) (match_values rs)

abbrev pub retrieval_value : String → List Scored → Value
retrieval_value query matches =
    obj (to_fields (("query", str query) ∷ ("documents", arr (match_values matches)) ∷ []))

unfoldable pub query_of : Env → Dict Value → Dict Value → String
query_of env config input =
    let key = string_config env config "query_input_key" "query" in
    env.to_lower (trim_space (any_string env (lookup_or null key input)))

pub retrieve : Env → Store → String → String → ℤ → List String → Result String Value
retrieve env docs tenant_id query limit [] = err "retrieve_documents requires document_ids"
retrieve env docs tenant_id query limit (id ∷ ids) =
    elim (collect env docs tenant_id query (id ∷ ids)) [
      | err e ↦ err (error_text e)
      | ok results ↦ ok (retrieval_value query (truncate limit (sort_by ranks_before results)))
    ]

-- `executeRetrieval`, on the documents that are stored at the time of the call.
unfoldable pub execute_retrieval :
    Env → Store → String → Dict Value → Dict Value → Result String Value
unfolding retrieve
execute_retrieval env docs tenant_id config input =
    retrieve env docs tenant_id (query_of env config input) (int_config config "limit" (pos 3))
      (string_slice_config env config "document_ids")

-- An executor whose documents are those of the service, in the state before each node call.
abbrev pub with_documents : (ℕ → Store) → Env → Env
with_documents docs env = record env {
  execute_retrieval =
      λ calls tenant_id config input. execute_retrieval env (docs calls) tenant_id config input;
}
