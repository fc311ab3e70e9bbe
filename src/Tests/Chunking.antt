-- ===== src/Tests/Chunking.antt =====
-- Three short lines.
use sync_ai_final.Base.{
  nat_eq, list_eq, option_eq, pair_eq, Text, codes, ℕ, ◌≡◌, refl, List, [], ◌∷◌, map,
}
use sync_ai_final.Chunking.{split_lines, join_lines, code_chunk, chunk_lines, chunk}
use sync_ai_final.Chunking.Prose.{split_sentences, join_words, ProseChunk, chunk_prose}
use sync_ai_final.Chunking.Prose.Kept.{recovered, chunk_prose_lem}
use sync_ai_final.Chunking.Whole.{contents, join_lines-chunk}

abbrev keep_text : ℕ → Text → Text
keep_text n s = n ∷ s

abbrev three_lines : Text
three_lines = b'a' ∷ b'b' ∷ 10 ∷ b'c' ∷ 10 ∷ 10 ∷ b'd' ∷ []

three_lines-chunks :
    contents keep_text 4 [] (chunk keep_text 4 [] three_lines)
    ≡ (b'a' ∷ b'b' ∷ 10 ∷ b'c' ∷ []) ∷ (10 ∷ b'd' ∷ []) ∷ []
unfolding chunk chunk_lines code_chunk split_lines join_lines
three_lines-chunks = refl

join_lines-chunk_example :
    join_lines (contents keep_text 4 [] (chunk keep_text 4 [] three_lines)) ≡ three_lines
join_lines-chunk_example = join_lines-chunk keep_text 4 [] three_lines

-- Three sentences in chunks of four characters, with an overlap.
abbrev sentences : Text
sentences = codes "a. b. c."

chunk_prose_lem_example :
    (gs : List (List Text)) × (map
        (λ (chunk : ProseChunk). chunk.content)
        (chunk_prose keep_text 4 2 [] sentences)
      ≡ map join_words gs)
    × (recovered 2 gs ≡ split_sentences sentences)
chunk_prose_lem_example = chunk_prose_lem keep_text 4 2 [] 97 (codes ". b. c.")
