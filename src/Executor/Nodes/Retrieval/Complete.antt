-- ===== src/Executor/Nodes/Retrieval/Complete.antt =====
-- Every chunk that matches is found by `executeRetrieval` of internal/executor/nodes.go.
use ai_workflow.Base.{
  ◌<◌, ◌≡◌, refl, sym, ap, ◌⊎◌, inl, inr, String, true, false, not, ◌&&◌, List, [], ◌∷◌, ◌++◌,
  arith, eqb, Bool-cases, contains, ok, ◌==◌, eq_iff,
}
use mathlib.Core.Path.{subst}
use ai_workflow.Base.{if_rule}
use ai_workflow.Base.Lists.{Result-cases}
use ai_workflow.Documents.{Chunk, Store, list_chunks}
use ai_workflow.Executor.{Env}
use ai_workflow.Executor.Nodes.Retrieval.{Scored, lexical_score, score_chunks, collect}

-- An element is one of a list.
abbrev pub Among : {A : Type 0} → A → List A → Type 0
Among a [] = ⊥
Among a (b ∷ xs) = (a ≡ b) ⊎ Among a xs

module _ {A : Type 0} (a : A) where
  Among-append : (xs ys : List A) → (Among a xs ⊎ Among a ys) → Among a (xs ++ ys)
  Among-append [] ys (inl e) = absurd e
  Among-append [] ys (inr e) = e
  Among-append (x ∷ xs) ys (inl (inl e)) = inl e
  Among-append (x ∷ xs) ys (inl (inr e)) = inr (Among-append xs ys (inl e))
  Among-append (x ∷ xs) ys (inr e) = inr (Among-append xs ys (inr e))

abbrev pub scored : Env → String → Chunk → Scored
scored env query c = record { chunk = c; score = lexical_score env query c.content }

-- A chunk of a requested document that has a term of the query is found with its score.
module _ (env : Env) (docs : Store) (tenant_id query : String) (c : Chunk)
    (positive : (query ≡ "") ⊎ (0 < lexical_score env query c.content)) where
  kept : (not (query == "") && eqb (lexical_score env query c.content) 0) ≡ false
  kept = elim positive [ inl blank ↦ rw blank refl | inr some_term ↦ ground (arith, some_term) ]

  score_chunks-Among :
      (cs : List Chunk) → Among c cs → Among (scored env query c) (score_chunks env query cs)
  unfolding score_chunks
  score_chunks-Among [] among = absurd among
  score_chunks-Among (d ∷ cs) (inl same) = rw (sym same, kept) (inl refl)
  score_chunks-Among (d ∷ cs) (inr among) =
      if_rule (Among (scored env query c))
        (not (query == "") && eqb (lexical_score env query d.content) 0) (score_chunks env query cs)
        (scored env query d ∷ score_chunks env query cs) (score_chunks-Among cs among)
        (inr (score_chunks-Among cs among))

  pub collect-Among :
      (ids : List String) (id : String) (cs : List Chunk) (found : List Scored)
      → contains id ids ≡ true
      → list_chunks docs tenant_id id ≡ ok cs
      → Among c cs
      → collect env docs tenant_id query ids ≡ ok found
      → Among (scored env query c) found
  unfolding collect
  collect-Among [] id cs found asked listed among h = absurd (ground (arith, asked))
  collect-Among (j ∷ ids) id cs found asked listed among h =
      elim (Result-cases (list_chunks docs tenant_id j)) [
        | inr (e, failed) ↦ absurd (ground (arith, h, failed))
        | inl (ds, here) ↦ elim (Result-cases (collect env docs tenant_id query ids)) [
          | inr (e, failed) ↦ absurd (ground (arith, h, here, failed))
          | inl (more, rest) ↦
              let in_part : Among c ds ⊎ Among (scored env query c) more =
                elim (Bool-cases (j == id)) [
                  | inl same ↦
                      let both = ap (list_chunks docs tenant_id) ((eq_iff j id).0 same) in
                      inl (subst (Among c) {x = cs} (cc (listed, here, both)) among)
                  | inr other ↦ inr (
                      collect-Among ids id cs more (ground (arith, asked, other)) listed among rest)
                ] in
              subst (Among (scored env query c)) {x = score_chunks env query ds ++ more}
                (ground (arith, h, here, rest))
                (Among-append (scored env query c) (score_chunks env query ds) more (elim in_part [
                  | inl here' ↦ inl (score_chunks-Among ds here')
                  | inr later ↦ inr later
                ]))
        ]
      ]
