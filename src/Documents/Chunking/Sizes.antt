-- ===== src/Documents/Chunking/Sizes.antt =====
-- The sizes of the chunks of internal/documents/service.go: within the bound, and no smaller than
-- the next word allows.
use ai_workflow.Base.{
  ℕ, ◌+◌, ◌≤◌, ◌<◌, ◌≡◌, ◌≢◌, refl, sym, ◌∙◌, ◌⊎◌, inl, inr, String, List, [], ◌∷◌, ◌++◌, arith,
  ltb, Bool-cases, All,
}
use Prim.Native.String as Text
use Prim.Native.String.{len}
use text.Mathlib.TextPositions.{len-append}
use ai_workflow.Base.Words.{IsWord, fields, replace_crlf, fields-append, fields_word, fields-IsWord}
use ai_workflow.Documents.Chunking.{Building, start, add_word, add_words, finish, pack, chunk_text}
use ai_workflow.Documents.Chunking.Packing.{
  fields_none, Added, first, joined, flushed, add_word-Added,
}

abbrev head_or : String → List String → String
head_or d [] = d
head_or d (w ∷ ws) = w

abbrev pub first_word : String → String
first_word s = head_or "" (fields s)

-- A chunk has a word, and more than the bound only if it is a single word.
pub record IsPiece (max : ℕ) (c : String) : Type 0 where
  pub worded : fields c ≢ []
  pub sized : (len c ≤ max) ⊎ IsWord c

-- The first word of each chunk but the first did not fit into the chunk before it.
abbrev pub Full : ℕ → List String → Type 0
Full max [] = Unit
Full max (c ∷ []) = Unit
Full max (c ∷ d ∷ cs) = (max < len c + 1 + len (first_word d)) × Full max (d ∷ cs)

record Sized (max : ℕ) (b : Building) : Type 0 where
  pieces : All (IsPiece max) b.chunks
  begun : ((len b.builder ≡ 0) × (b.chunks ≡ [])) ⊎ IsPiece max b.builder
  full : Full max (b.chunks ++ b.builder ∷ [])

All-concat :
    (max : ℕ) (xs : List String) (c : String)
    → All (IsPiece max) xs
    → IsPiece max c
    → All (IsPiece max) (xs ++ c ∷ [])
All-concat max [] c h p = (p, tt)
All-concat max (x ∷ xs) c (h, hs) p = (h, All-concat max xs c hs p)

Full-last :
    (max : ℕ) (xs : List String) (c d : String)
    → first_word d ≡ first_word c
    → Full max (xs ++ c ∷ [])
    → Full max (xs ++ d ∷ [])
Full-last max [] c d e h = tt
Full-last max (x ∷ []) c d e h = (rw e h.0, tt)
Full-last max (x ∷ y ∷ xs) c d e h = (h.0, Full-last max (y ∷ xs) c d e h.1)

Full-concat :
    (max : ℕ) (xs : List String) (c d : String)
    → max < len c + 1 + len (first_word d)
    → Full max (xs ++ c ∷ [])
    → Full max ((xs ++ c ∷ []) ++ d ∷ [])
Full-concat max [] c d e h = (e, tt)
Full-concat max (x ∷ []) c d e h = (h.0, (e, tt))
Full-concat max (x ∷ y ∷ xs) c d e h = (h.0, Full-concat max (y ∷ xs) c d e h.1)

first_word-append :
    (c w : String) → fields c ≢ [] → first_word (Text.◌++◌ c (String.◌∷◌ " " w)) ≡ first_word c
first_word-append c w h = rw (fields-append c w) (head_lem (fields c) h)
  where
    head_lem : (xs : List String) → xs ≢ [] → head_or "" (xs ++ fields w) ≡ head_or "" xs
    head_lem [] h = absurd (h refl)
    head_lem (x ∷ xs) h = refl

word-IsPiece : (max : ℕ) (w : String) → IsWord w → IsPiece max w
word-IsPiece max w h = record { worded = λ e. cc (e, fields_word w h); sized = inr h }

module _ (max : ℕ) (b : Building) (h : Sized max b) where
  no_chunks : len b.builder ≡ 0 → b.chunks ≡ []
  no_chunks empty = elim h.begun [
    | inl (e, none_yet) ↦ none_yet
    | inr p ↦ absurd (p.worded (fields_none b.builder empty))
  ]

  begun-IsPiece : 0 < len b.builder → IsPiece max b.builder
  begun-IsPiece begun = elim h.begun [ inl (e, none_yet) ↦ absurd (omega arith) | inr p ↦ p ]

len_space : (w : String) → len (String.◌∷◌ " " w) ≡ 1 + len w
len_space w = Text.len.cons (" ") w

joined-IsPiece :
    (max : ℕ) (c w : String)
    → len c + 1 + len w ≤ max
    → IsPiece max c
    → IsPiece max (Text.◌++◌ c (String.◌∷◌ " " w))
joined-IsPiece max c w fits p = record {
  worded = λ e. p.worded (append_nil_left (fields c) (fields w) (sym (fields-append c w) ∙ e));
  sized = inl (omega (arith, len-append c (String.◌∷◌ " " w), len_space w));
}
  where
    append_nil_left : (xs ys : List String) → xs ++ ys ≡ [] → xs ≡ []
    append_nil_left [] ys e = refl
    append_nil_left (x ∷ xs) ys e = cc

add-Sized :
    (max : ℕ) (b after : Building) (w : String)
    → IsWord w
    → Added max b w after
    → Sized max b
    → Sized max after
add-Sized max b after w word (first empty eb ec) h = record {
  pieces = rw (ec, no_chunks max b h empty) tt;
  begun = inr (rw eb (word-IsPiece max w word));
  full = rw (ec, no_chunks max b h empty) tt;
}
add-Sized max b after w word (joined begun fits eb ec) h =
    let p = begun-IsPiece max b h begun in
    record {
      pieces = rw ec h.pieces;
      begun = inr (rw eb (joined-IsPiece max b.builder w fits p));
      full =
          rw (eb, ec)
            (Full-last max b.chunks b.builder (Text.◌++◌ b.builder (String.◌∷◌ " " w))
              (first_word-append b.builder w p.worded) h.full);
    }
add-Sized max b after w word (flushed begun full eb ec) h = record {
  pieces = rw ec (All-concat max b.chunks b.builder h.pieces (begun-IsPiece max b h begun));
  begun = inr (rw eb (word-IsPiece max w word));
  full = rw (eb, ec) (Full-concat max b.chunks b.builder w (rw (fields_word w word) full) h.full);
}

add_words-Sized :
    (max : ℕ) (ws : List String) (b : Building)
    → All IsWord ws
    → Sized max b
    → Sized max (add_words max b ws)
unfolding add_words
add_words-Sized max [] b words h = h
add_words-Sized max (w ∷ ws) b (word, words) h =
    add_words-Sized max ws (add_word max b w) words
      (add-Sized max b (add_word max b w) w word (add_word-Added max b w) h)

finish-Sized :
    (max : ℕ) (b : Building) → Sized max b → All (IsPiece max) (finish b) × Full max (finish b)
unfolding finish
finish-Sized max b h = elim (Bool-cases (ltb 0 (len b.builder))) [
  | inl begun ↦ rw begun (
    All-concat max b.chunks b.builder h.pieces (begun-IsPiece max b h (ground (arith, begun))),
    h.full,
  )
  | inr empty ↦ rw (empty, no_chunks max b h (ground (arith, empty))) (tt, tt)
]

-- Every chunk has a word and is at most as long as the bound, unless it is a single word, and the
-- first word of a chunk would not have fitted behind the chunk before it.
pub chunk_text-sizes :
    (content : String) (max_chunk_size : ℕ)
    → All (IsPiece max_chunk_size) (chunk_text content max_chunk_size)
      × Full max_chunk_size (chunk_text content max_chunk_size)
unfolding chunk_text pack
chunk_text-sizes content max_chunk_size =
    pack-sizes (fields (replace_crlf content)) (fields-IsWord (replace_crlf content))
  where
    pack-sizes :
        (ws : List String)
        → All IsWord ws
        → All (IsPiece max_chunk_size) (pack max_chunk_size ws)
          × Full max_chunk_size (pack max_chunk_size ws)
    pack-sizes [] words = (tt, tt)
    pack-sizes (w ∷ ws) words =
        finish-Sized max_chunk_size (add_words max_chunk_size start (w ∷ ws)) (
          add_words-Sized max_chunk_size (w ∷ ws) start words
            (record { pieces = tt; begun = inl (refl, refl); full = tt }))
