-- ===== src/Documents/Chunking.antt =====
-- `chunkText` of internal/documents/service.go: the words of a text, packed into chunks.
use ai_workflow.Base.{ℕ, ◌+◌, String, List, [], ◌∷◌, ◌++◌, ltb, eqb, if◌then◌else◌}
pub mod Packing
pub mod Sizes
use Prim.Native.String as Text
use Prim.Native.String.{len}
use ai_workflow.Base.Words.{fields, replace_crlf}

-- The builder and the chunks before it.
pub record Building : Type 0 where
  pub builder : String
  pub chunks : List String

abbrev pub start : Building
start = record { builder = ""; chunks = [] }

-- The builder is written out if the word does not fit in.
unfoldable pub make_room : ℕ → Building → String → Building
make_room max_chunk_size b word =
    if ltb max_chunk_size (len b.builder + 1 + len word)
    then record { builder = ""; chunks = b.chunks ++ b.builder ∷ [] }
    else b

unfoldable pub write_word : Building → String → Building
write_word b word = record b {
  builder = Text.◌++◌ (if ltb 0 (len b.builder) then Text.◌++◌ b.builder " " else b.builder) word;
}

-- A round of the loop.
unfoldable pub add_word : ℕ → Building → String → Building
unfolding make_room write_word
add_word max_chunk_size b word =
    if eqb (len b.builder) 0
    then record b { builder = Text.◌++◌ b.builder word }
    else write_word (make_room max_chunk_size b word) word

unfoldable pub add_words : ℕ → Building → List String → Building
unfolding add_word
add_words max_chunk_size b [] = b
add_words max_chunk_size b (word ∷ words) =
    add_words max_chunk_size (add_word max_chunk_size b word) words

unfoldable pub finish : Building → List String
finish b = if ltb 0 (len b.builder) then b.chunks ++ b.builder ∷ [] else b.chunks

pub pack : ℕ → List String → List String
pack max_chunk_size [] = []
pack max_chunk_size (word ∷ words) = finish (add_words max_chunk_size start (word ∷ words))

unfoldable pub chunk_text : String → ℕ → List String
unfolding add_words finish pack
chunk_text content max_chunk_size = pack max_chunk_size (fields (replace_crlf content))
