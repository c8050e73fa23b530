-- ===== src/Executor/Nodes/Retrieval/Ranking.antt =====
-- What `executeRetrieval` of internal/executor/nodes.go returns.
use ai_workflow.Base.{
  ◌≤◌, ◌<◌, ◌≡◌, refl, sym, ◌⊎◌, inl, inr, String, true, false, not, ◌&&◌, List, [], ◌∷◌, ◌++◌,
  arith, ltb, eqb, Bool-cases, length, All, contains, Result, ok, err, ◌==◌, eq_iff, eq_refl,
}
use mathlib.Core.Path.{subst}
use mathlib.Core.List.{Perm, append-nil}
use ai_workflow.Base.Int.{ℤ, pos, is_nonpositive, to_ℕ}
use ai_workflow.Base.Lists.{
  map_ok, take, drop, take-append-drop, length-take, All-take, Result-cases,
}
use ai_workflow.Base.{if_rule}
use ai_workflow.Base.Dict.{Dict}
use ai_workflow.Base.Value.{Value}
use ai_workflow.Base.Sorting.{sort_by, All-sort_by, sort_by-perm, sort_by-IsSorted}
use ai_workflow.Documents.{Error, Chunk, Store, list_chunks}
use ai_workflow.Documents.Created
use ai_workflow.Documents.Reading.{list_chunks-owned}
use ai_workflow.Executor.{Env}
use ai_workflow.Executor.Nodes.Retrieval.Order.{IsRanked, ranks_before-total, IsSorted-IsRanked}
use ai_workflow.Executor.Nodes.Retrieval.Complete.{Among, scored, collect-Among}
use ai_workflow.Executor.Nodes.Retrieval.{
  Scored, lexical_score, score_chunks, collect, ranks_before, truncate, retrieval_value, query_of,
  retrieve, execute_retrieval, int_config, string_slice_config,
}

-- A result is a chunk of a document with one of the ids, scored, and above 0 for a query.
pub record IsMatch (env : Env) (docs : Store) (tenant_id query : String) (ids : List String)
    (r : Scored) : Type 0 where
  pub document_id : String
  pub chunks : List Chunk
  pub requested : contains document_id ids ≡ true
  pub listed : list_chunks docs tenant_id document_id ≡ ok chunks
  pub among : Among r.chunk chunks
  pub score : r.score ≡ lexical_score env query r.chunk.content
  pub positive : (query ≡ "") ⊎ (0 < r.score)

module _ (env : Env) (docs : Store) (tenant_id query : String) where
  All-more :
      (id : String) (ids : List String) (rs : List Scored)
      → All (IsMatch env docs tenant_id query ids) rs
      → All (IsMatch env docs tenant_id query (id ∷ ids)) rs
  All-more id ids [] h = tt
  All-more id ids (r ∷ rs) (m, h) = (
    record {
      document_id = m.document_id;
      chunks = m.chunks;
      requested = ground (arith, m.requested);
      listed = m.listed;
      among = m.among;
      score = m.score;
      positive = m.positive;
    },
    All-more id ids rs h,
  )

  All-append : (P : Scored → Type 0) (xs ys : List Scored) → All P xs → All P ys → All P (xs ++ ys)
  All-append P [] ys h k = k
  All-append P (x ∷ xs) ys (h, hs) k = (h, All-append P xs ys hs k)

  score_chunks-All :
      (id : String) (ids : List String) (all cs : List Chunk)
      → list_chunks docs tenant_id id ≡ ok all
      → ((c : Chunk) → Among c cs → Among c all)
      → All (IsMatch env docs tenant_id query (id ∷ ids)) (score_chunks env query cs)
  unfolding score_chunks
  score_chunks-All id ids all [] listed inside = tt
  score_chunks-All id ids all (c ∷ cs) listed inside =
      let rest = score_chunks-All id ids all cs listed (λ d among. inside d (inr among)) in
      let score = lexical_score env query c.content in
      elim (Bool-cases (not (query == "") && eqb score 0)) [
        | inl skipped ↦ rw skipped rest
        | inr kept ↦ rw kept (
          record {
            document_id = id;
            chunks = all;
            requested = ground (arith, eq_refl id);
            listed = listed;
            among = inside c (inl refl);
            score = refl;
            positive = elim (Bool-cases (query == "")) [
              | inl blank ↦ inl ((eq_iff query "").0 blank)
              | inr asked ↦ inr (ground (arith, kept, asked))
            ];
          },
          rest,
        )
      ]

  abbrev Found : List String → Result Error (List Scored) → Type 0
  Found ids (err e) = Unit
  Found ids (ok rs) = All (IsMatch env docs tenant_id query ids) rs

  Found-append :
      (id : String) (ids : List String) (xs : List Scored) (r : Result Error (List Scored))
      → All (IsMatch env docs tenant_id query (id ∷ ids)) xs
      → Found ids r
      → Found (id ∷ ids) (map_ok (◌++◌ xs) r)
  Found-append id ids xs (err e) h k = tt
  Found-append id ids xs (ok rs) h k =
      All-append (IsMatch env docs tenant_id query (id ∷ ids)) xs rs h (All-more id ids rs k)

  collect-Found : (ids : List String) → Found ids (collect env docs tenant_id query ids)
  unfolding collect
  collect-Found [] = tt
  collect-Found (id ∷ ids) = elim (Result-cases (list_chunks docs tenant_id id)) [
    | inl (cs, listed) ↦
        rw (listed, Found)
          (Found-append id ids (score_chunks env query cs) (collect env docs tenant_id query ids)
            (score_chunks-All id ids cs cs listed (λ c among. among)) (collect-Found ids))
    | inr (e, failed) ↦ rw (failed, Found) tt
  ]

-- The first results in order: as many as the limit where it is above 0 and there are more, and else
-- all.
pub record Best (limit : ℤ) (found matches : List Scored) : Type 0 where
  pub rest : List Scored
  pub kept : Perm (matches ++ rest) found
  pub ranked : IsRanked (matches ++ rest)
  pub cut :
      ((rest ≡ []) × ((is_nonpositive limit ≡ true) ⊎ (length matches ≤ to_ℕ limit)))
      ⊎ ((is_nonpositive limit ≡ false) × (length matches ≡ to_ℕ limit))

truncate-Best :
    (limit : ℤ) (found rs : List Scored)
    → Perm rs found
    → IsRanked rs
    → Best limit found (truncate limit rs)
unfolding truncate
truncate-Best limit found rs perm ranked =
    elim (Bool-cases (not (is_nonpositive limit) && ltb (to_ℕ limit) (length rs))) [
      | inl cut ↦
          let parts = sym (take-append-drop (to_ℕ limit) rs) in
          rw cut (record {
            rest = drop (to_ℕ limit) rs;
            kept = subst (λ x. Perm x found) parts perm;
            ranked = subst IsRanked parts ranked;
            cut = inr (ground (arith, cut), length-take (to_ℕ limit) rs (ground (arith, cut)));
          })
      | inr whole ↦
          let parts = sym (append-nil rs) in
          rw whole (record {
            rest = [];
            kept = subst (λ x. Perm x found) parts perm;
            ranked = subst IsRanked parts ranked;
            cut = inl (
              refl,
              elim (Bool-cases (is_nonpositive limit)) [
                | inl unlimited ↦ inl unlimited
                | inr limited ↦ inr (ground (arith, whole, limited))
              ],
            );
          })
    ]

All-truncate :
    (P : Scored → Type 0) (limit : ℤ) (rs : List Scored) → All P rs → All P (truncate limit rs)
unfolding truncate
All-truncate P limit rs h =
    if_rule (All P) (not (is_nonpositive limit) && ltb (to_ℕ limit) (length rs))
      (take (to_ℕ limit) rs) rs (All-take P (to_ℕ limit) rs h) h

-- The results for the documents with some ids: chunks of them that match, and every such chunk.
pub record Matching (env : Env) (docs : Store) (tenant_id query : String) (ids : List String)
    (found : List Scored) : Type 0 where
  pub all_match : All (IsMatch env docs tenant_id query ids) found
  pub complete :
      (id : String) (cs : List Chunk) (c : Chunk)
      → contains id ids ≡ true
      → list_chunks docs tenant_id id ≡ ok cs
      → Among c cs
      → ((query ≡ "") ⊎ (0 < lexical_score env query c.content))
      → Among (scored env query c) found

-- What a node that retrieves documents puts out.
pub record Retrieved (env : Env) (docs : Store) (tenant_id : String) (config input : Dict Value)
    (v : Value) : Type 0 where
  pub found : List Scored
  pub matches : List Scored
  pub output : v ≡ retrieval_value (query_of env config input) matches
  pub matching :
      Matching env docs tenant_id
        (query_of env config input)
        (string_slice_config env config "document_ids")
        found
  pub best : Best (int_config config "limit" (pos 3)) found matches
  pub all_match :
      All
        (IsMatch env docs tenant_id
          (query_of env config input)
          (string_slice_config env config "document_ids"))
        matches

retrieve_ok :
    (env : Env) (docs : Store) (tenant_id query : String) (limit : ℤ) (ids : List String)
    → (v : Value) → retrieve env docs tenant_id query limit ids ≡ ok v
    → (found : List Scored) × (collect env docs tenant_id query ids ≡ ok found)
      × (v ≡ retrieval_value query (truncate limit (sort_by ranks_before found)))
unfolding retrieve
retrieve_ok env docs tenant_id query limit [] v h = absurd (ground (arith, h))
retrieve_ok env docs tenant_id query limit (id ∷ ids) v h =
    elim (Result-cases (collect env docs tenant_id query (id ∷ ids))) [
      | inl (found, e) ↦ (found, e, ground (arith, h, e))
      | inr (e', e) ↦ absurd (ground (arith, h, e))
    ]

-- A retrieval that succeeds finds the chunks of the requested documents of the tenant, and with a
-- query only those with a score above 0, each with the score of its text, and returns the first of
-- them in the order of score, document and index: as many as the limit where it is above 0 and
-- there are more, and else all.
pub execute_retrieval-Retrieved :
    (env : Env) (docs : Store) (tenant_id : String) (config input : Dict Value) (v : Value)
    → execute_retrieval env docs tenant_id config input ≡ ok v
    → Retrieved env docs tenant_id config input v
unfolding execute_retrieval
execute_retrieval-Retrieved env docs tenant_id config input v h =
    let query = query_of env config input in
    let limit = int_config config "limit" (pos 3) in
    let ids = string_slice_config env config "document_ids" in
    let (found, e, output) = retrieve_ok env docs tenant_id query limit ids v h in
    let all_match =
      subst (Found env docs tenant_id query ids) e (collect-Found env docs tenant_id query ids) in
    record {
      found = found;
      matches = truncate limit (sort_by ranks_before found);
      output = output;
      matching = record {
        all_match = all_match;
        complete = λ id cs c asked listed among positive.
            collect-Among env docs tenant_id query c positive ids id cs found asked listed among e;
      };
      best =
          truncate-Best limit found (sort_by ranks_before found) (sort_by-perm ranks_before found) (
            IsSorted-IsRanked (sort_by ranks_before found)
              (sort_by-IsSorted ranks_before ranks_before-total found));
      all_match =
          All-truncate (IsMatch env docs tenant_id query ids) limit (sort_by ranks_before found)
            (All-sort_by ranks_before (IsMatch env docs tenant_id query ids) found all_match);
    }

All-owned :
    (env : Env) (docs : Store) (tenant_id query : String) (ids : List String) (rs : List Scored)
    → Created.IsSound docs
    → All (IsMatch env docs tenant_id query ids) rs
    → All (λ r. r.chunk.tenant_id ≡ tenant_id) rs
All-owned env docs tenant_id query ids [] sound h = tt
All-owned env docs tenant_id query ids (r ∷ rs) sound (m, h) = (
  owned_among r.chunk m.chunks m.among
      (list_chunks-owned docs tenant_id m.document_id m.chunks sound m.listed),
  All-owned env docs tenant_id query ids rs sound h,
)
  where
    owned_among :
        (c : Chunk) (cs : List Chunk)
        → Among c cs
        → All (λ d. d.tenant_id ≡ tenant_id) cs
        → c.tenant_id ≡ tenant_id
    owned_among c [] a k = absurd a
    owned_among c (d ∷ cs) (inl e) (k, ks) = rw e k
    owned_among c (d ∷ cs) (inr a) (k, ks) = owned_among c cs a ks

-- In a sound repository of documents, a retrieval that succeeds puts out chunks of the tenant only.
pub execute_retrieval-owned :
    (env : Env) (docs : Store) (tenant_id : String) (config input : Dict Value) (v : Value)
    → Created.IsSound docs
    → execute_retrieval env docs tenant_id config input ≡ ok v
    → (matches : List Scored) × (v ≡ retrieval_value (query_of env config input) matches)
      × All (λ r. r.chunk.tenant_id ≡ tenant_id) matches
execute_retrieval-owned env docs tenant_id config input v sound h =
    let r = execute_retrieval-Retrieved env docs tenant_id config input v h in
    (
      r.matches,
      r.output,
      All-owned env docs tenant_id (query_of env config input)
          (string_slice_config env config "document_ids") r.matches sound r.all_match,
    )
