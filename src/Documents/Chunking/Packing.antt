-- ===== src/Documents/Chunking/Packing.antt =====
-- The chunks of internal/documents/service.go hold the words of the text in order, and are full.
use ai_workflow.Base.{
  ℕ, ◌+◌, ◌≤◌, ◌<◌, ◌≡◌, refl, ◌∙◌, inl, inr, String, true, List, [], ◌∷◌, ◌++◌, arith, ltb, eqb,
  Bool-cases, All,
}
use Prim.Native.String as Text
use Prim.Native.String.{len}
use text.Mathlib.TextLemmas.{nil-append, cons-append, append_assoc as text_assoc}
use text.Mathlib.TextPositions.{len_utf8-pos}
use mathlib.Core.List.{append_assoc, append-nil}
use ai_workflow.Base.Words.{
  IsWord, fields, replace_crlf, fields-append, fields_word, fields-IsWord, fields-replace_crlf,
}
use ai_workflow.Documents.Chunking.{
  Building, start, make_room, write_word, add_word, add_words, finish, pack, chunk_text,
}

-- The words of all texts of a list.
abbrev pub all_words : List String → List String
all_words [] = []
all_words (text ∷ texts) = fields text ++ all_words texts

all_words-append : (xs ys : List String) → all_words (xs ++ ys) ≡ all_words xs ++ all_words ys
all_words-append [] ys = refl
all_words-append (x ∷ xs) ys = simp (all_words-append xs ys, append_assoc)

fields_empty : (s : String) → eqb (len s) 0 ≡ true → s ≡ ""
fields_empty String.[] h = refl
fields_empty (String.◌∷◌ c s) h = absurd (ground (arith, (len_utf8-pos c).1, Text.len.cons c s))

len_word : (w : String) → IsWord w → 0 < len w
len_word String.[] h = absurd (ground (arith, h.nonempty))
len_word (String.◌∷◌ c s) h = omega (arith, (len_utf8-pos c).1, Text.len.cons c s)

spaced : (s t : String) → Text.◌++◌ (Text.◌++◌ s " ") t ≡ Text.◌++◌ s (String.◌∷◌ " " t)
spaced s t = rw (text_assoc s " " t) (rw (cons-append (" ") "" t) (rw (nil-append t)))

-- What a round of the loop does to the builder and the chunks.
pub data Added (max : ℕ) (b : Building) (w : String) (after : Building) : Type 0 where
  first : len b.builder ≡ 0 → after.builder ≡ w → after.chunks ≡ b.chunks → Added max b w after
  joined :
      0 < len b.builder
      → len b.builder + 1 + len w ≤ max
      → after.builder ≡ Text.◌++◌ b.builder (String.◌∷◌ " " w)
      → after.chunks ≡ b.chunks
      → Added max b w after
  flushed :
      0 < len b.builder
      → max < len b.builder + 1 + len w
      → after.builder ≡ w
      → after.chunks ≡ b.chunks ++ b.builder ∷ []
      → Added max b w after

module _ (max : ℕ) (b : Building) (w : String) where
  pub add_word-Added : Added max b w (add_word max b w)
  unfolding add_word make_room write_word
  add_word-Added = elim (Bool-cases (eqb (len b.builder) 0)) [
    | inl empty ↦
        first (ground (arith, empty))
          (ground (arith, empty, fields_empty b.builder empty, nil-append w))
          (ground (arith, empty))
    | inr begun ↦ elim (Bool-cases (ltb max (len b.builder + 1 + len w))) [
      | inl full ↦
          flushed (ground (arith, begun)) (ground (arith, full)) (rw (begun, full) (nil-append w))
            (rw (begun, full))
      | inr fits ↦
          joined (ground (arith, begun)) (ground (arith, fits))
            (ground (arith, begun, fits, spaced b.builder w)) (rw (begun, fits))
    ]
  ]

pub fields_none : (s : String) → len s ≡ 0 → fields s ≡ []
unfolding fields
fields_none String.[] h = refl
fields_none (String.◌∷◌ c s) h = absurd (omega (arith, (len_utf8-pos c).1, Text.len.cons c s, h))

abbrev words_of : Building → List String
words_of b = all_words b.chunks ++ fields b.builder

words_of-add :
    (max : ℕ) (b after : Building) (w : String)
    → IsWord w
    → Added max b w after
    → words_of after ≡ words_of b ++ w ∷ []
words_of-add max b after w word (first empty eb ec) =
    simp (eb, ec, fields_word w word, fields_none b.builder empty, append-nil)
words_of-add max b after w word (joined begun fits eb ec) =
    simp (eb, ec, fields-append b.builder w, fields_word w word, append_assoc)
words_of-add max b after w word (flushed begun full eb ec) =
    simp (eb, ec, all_words-append, fields_word w word, append_assoc, append-nil)

words_of-add_words :
    (max : ℕ) (b : Building) (ws : List String)
    → All IsWord ws
    → words_of (add_words max b ws) ≡ words_of b ++ ws
unfolding add_words
words_of-add_words max b [] words = simp append-nil
words_of-add_words max b (w ∷ ws) (word, words) = simp (
  words_of-add_words max (add_word max b w) ws words,
  words_of-add max b (add_word max b w) w word (add_word-Added max b w),
  append_assoc,
)

all_words-finish : (b : Building) → all_words (finish b) ≡ words_of b
unfolding finish
all_words-finish b = elim (Bool-cases (ltb 0 (len b.builder))) [
  | inl begun ↦ rw begun (simp (all_words-append, append-nil))
  | inr empty ↦ rw empty (simp (fields_none b.builder (ground (arith, empty)), append-nil))
]

all_words-pack : (max : ℕ) (ws : List String) → All IsWord ws → all_words (pack max ws) ≡ ws
unfolding pack fields
all_words-pack max [] words = refl
all_words-pack max (w ∷ ws) words =
    all_words-finish (add_words max start (w ∷ ws)) ∙ words_of-add_words max start (w ∷ ws) words

-- The words of the chunks, taken together, are the words of the text in their order.
pub all_words-chunk_text :
    (content : String) (max_chunk_size : ℕ)
    → all_words (chunk_text content max_chunk_size) ≡ fields content
unfolding chunk_text
all_words-chunk_text content max_chunk_size =
    all_words-pack max_chunk_size (fields (replace_crlf content))
      (fields-IsWord (replace_crlf content))
    ∙ fields-replace_crlf content
