-- ===== src/Chunking.antt =====
-- `CodeChunker`, backend/app/services/chunking/code.py. An id is made of the number of chunks so far
-- and the first 50 characters, by a digest (MD5) that is a parameter.
pub mod Whole
pub mod Prose
use sync_ai_final.Base.{
  ltb, nat_eqb, if◌then◌else◌, nat_eq, list_eq, option_eq, pair_eq, length, take, is_empty, Text, ℕ,
  ◌+◌, Bool, false, not, ◌&&◌, List, [], ◌∷◌, ◌++◌,
}

abbrev pub newline : ℕ
newline = 10

abbrev pub onto_first : ℕ → List Text → List Text
onto_first c [] = (c ∷ []) ∷ []
onto_first c (line ∷ rest) = (c ∷ line) ∷ rest

-- `content.split("\n")`
unfoldable pub split_lines : Text → List Text
split_lines [] = [] ∷ []
split_lines (c ∷ s) = if nat_eqb c newline then [] ∷ split_lines s else onto_first c (split_lines s)

-- `"\n".join(lines)`
unfoldable pub join_lines : List Text → Text
join_lines [] = []
join_lines (line ∷ []) = line
join_lines (line ∷ next ∷ rest) = line ++ newline ∷ join_lines (next ∷ rest)

pub record CodeChunk : Type 0 where
  pub id : Text
  pub content : Text
  pub is_truncated : Bool
  pub language : Text
  pub start_line : ℕ
  pub end_line : ℕ

module _ (digest : ℕ → Text → Text) (chunk_size : ℕ) (language : Text) where
  unfoldable pub code_chunk : ℕ → List Text → CodeChunk
  code_chunk n current = record {
    id = digest n (take 50 (join_lines current));
    content = join_lines current;
    is_truncated = false;
    language = language;
    start_line = 0;
    end_line = length current;
  }

  -- The loop over the lines; `n` chunks were made.
  unfoldable pub chunk_lines : ℕ → List Text → ℕ → List Text → List CodeChunk
  chunk_lines n current current_len [] = if is_empty current then [] else code_chunk n current ∷ []
  chunk_lines n current current_len (line ∷ lines) =
      let flushed = chunk_lines (n + 1) (line ∷ []) (length line + 1) lines in
      let longer = chunk_lines n (current ++ line ∷ []) (current_len + length line + 1) lines in
      if ltb chunk_size (current_len + length line) && not (is_empty current)
      then code_chunk n current ∷ flushed
      else longer

  unfoldable pub chunk : Text → List CodeChunk
  chunk content = if is_empty content then [] else chunk_lines 0 [] 0 (split_lines content)
