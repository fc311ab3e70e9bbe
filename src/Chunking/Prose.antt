-- ===== src/Chunking/Prose.antt =====
-- `ProseChunker`, backend/app/services/chunking/prose.py. An id is made of the number of chunks so far and
-- the first 50 characters, by a digest (MD5) that is a parameter.
pub mod Kept
use sync_ai_final.Base.{
  ltb, nat_eqb, if◌then◌else◌, nat_eq, list_eq, option_eq, pair_eq, length, take, is_empty, Text,
  is_space, ℕ, ◌+◌, Bool, true, false, ◌&&◌, ◌||◌, List, [], ◌∷◌, ◌++◌,
}
use sync_ai_final.Chunking.{onto_first, chunk}

-- `[.!?]`
abbrev pub ends_sentence : ℕ → Bool
ends_sentence c = nat_eqb c 46 || nat_eqb c 33 || nat_eqb c 63

-- `re.split(r'(?<=[.!?])\s+', ...)`: `ended` if the last character ends a sentence, `skipping` in the
-- spaces behind one.
unfoldable pub split_from : (ended skipping : Bool) → Text → List Text
split_from ended skipping [] = [] ∷ []
split_from ended true (c ∷ s) =
    let more = split_from false true s in
    let word = onto_first c (split_from (ends_sentence c) false s) in
    if is_space c then more else word
split_from ended false (c ∷ s) =
    let next = [] ∷ split_from false true s in
    let word = onto_first c (split_from (ends_sentence c) false s) in
    if ended && is_space c then next else word

unfoldable pub split_sentences : Text → List Text
split_sentences content = split_from false false content

-- `" ".join(sentences)`
unfoldable pub join_words : List Text → Text
join_words [] = []
join_words (w ∷ []) = w
join_words (w ∷ next ∷ rest) = w ++ 32 ∷ join_words (next ∷ rest)

-- `current_chunk[-1]`, of a list with the first element `x`
abbrev pub last_of : Text → List Text → Text
last_of x [] = x
last_of x (y ∷ ys) = last_of y ys

pub record ProseChunk : Type 0 where
  pub id : Text
  pub content : Text
  pub start : ℕ
  pub end : ℕ
  pub ends_mid_sentence : Bool
  pub parent_doc_id : Text

module _ (digest : ℕ → Text → Text) (chunk_size overlap : ℕ) (parent_doc_id : Text) where
  unfoldable pub prose_chunk : ℕ → List Text → ProseChunk
  prose_chunk n current = record {
    id = digest n (take 50 (join_words current));
    content = join_words current;
    start = 0;
    end = length (join_words current);
    ends_mid_sentence = false;
    parent_doc_id = parent_doc_id;
  }

  -- The loop over the sentences: the sentences of each chunk.
  unfoldable pub chunk_sentences : List Text → ℕ → List Text → List (List Text)
  chunk_sentences [] current_len [] = []
  chunk_sentences (x ∷ xs) current_len [] = (x ∷ xs) ∷ []
  chunk_sentences [] current_len (sent ∷ sents) =
      chunk_sentences (sent ∷ []) (current_len + length sent + 1) sents
  chunk_sentences (x ∷ xs) current_len (sent ∷ sents) =
      let last = last_of x xs in
      let repeated = chunk_sentences (last ∷ sent ∷ []) (length last + length sent + 1) sents in
      let fresh = chunk_sentences (sent ∷ []) (length sent + 1) sents in
      let longer = chunk_sentences (x ∷ (xs ++ sent ∷ [])) (current_len + length sent + 1) sents in
      if ltb chunk_size (current_len + length sent)
      then (x ∷ xs) ∷ (if ltb 0 overlap then repeated else fresh)
      else longer

  unfoldable pub number_chunks : ℕ → List (List Text) → List ProseChunk
  number_chunks n [] = []
  number_chunks n (g ∷ gs) = prose_chunk n g ∷ number_chunks (n + 1) gs

  unfoldable pub chunk_prose : Text → List ProseChunk
  chunk_prose content =
      if is_empty content
      then []
      else number_chunks 0 (chunk_sentences [] 0 (split_sentences content))
