-- ===== src/Chunking/Whole.antt =====
-- The chunks make up the text, and how long they are.
use sync_ai_final.Base.{
  ltb, leb, nat_eqb, nat_eqb_iff, Bool-cases, nat_eq, list_eq, option_eq, pair_eq, length, is_empty,
  any, length-append, Text, ℕ, ◌+◌, ◌≡◌, refl, sym, ap, ◌∙◌, inl, inr, Bool, true, false, not, ◌&&◌,
  ◌||◌, List, [], ◌∷◌, ◌++◌, map, append-nil, append_assoc, arith,
}
use sync_ai_final.Chunking.{
  newline, onto_first, split_lines, join_lines, CodeChunk, code_chunk, chunk_lines, chunk,
}

join_lines-onto_first :
    (c : ℕ) (lines : List Text)
    → is_empty lines ≡ false
    → join_lines (onto_first c lines) ≡ c ∷ join_lines lines
unfolding join_lines
join_lines-onto_first c [] h = cc
join_lines-onto_first c (line ∷ []) h = refl
join_lines-onto_first c (line ∷ next ∷ rest) h = refl

is_empty-split_lines : (s : Text) → is_empty (split_lines s) ≡ false
unfolding split_lines
is_empty-split_lines [] = refl
is_empty-split_lines (c ∷ s) = elim (Bool-cases (nat_eqb c newline)) [
  | inl eol ↦ rw eol refl
  | inr other ↦ rw other (is_empty-onto_first c (split_lines s))
]
  where
    is_empty-onto_first : (d : ℕ) (lines : List Text) → is_empty (onto_first d lines) ≡ false
    is_empty-onto_first d [] = refl
    is_empty-onto_first d (line ∷ rest) = refl

join_lines-empty_line :
    (lines : List Text)
    → is_empty lines ≡ false
    → join_lines ([] ∷ lines) ≡ newline ∷ join_lines lines
unfolding join_lines
join_lines-empty_line [] h = cc
join_lines-empty_line (line ∷ rest) h = refl

join_lines-split_lines : (s : Text) → join_lines (split_lines s) ≡ s
unfolding split_lines join_lines
join_lines-split_lines [] = refl
join_lines-split_lines (c ∷ s) = elim (Bool-cases (nat_eqb c newline)) [
  | inl eol ↦ rw eol (
      join_lines-empty_line (split_lines s) (is_empty-split_lines s)
      ∙ ap (◌∷◌ newline) (join_lines-split_lines s)
      ∙ ap (λ d. d ∷ s) (sym ((nat_eqb_iff c newline).0 eol)))
  | inr other ↦ rw other (
      join_lines-onto_first c (split_lines s) (is_empty-split_lines s)
      ∙ ap (◌∷◌ c) (join_lines-split_lines s))
]

join_lines-append :
    (xs : List Text) (ys : List Text)
    → is_empty xs ≡ false
    → is_empty ys ≡ false
    → join_lines (xs ++ ys) ≡ join_lines xs ++ newline ∷ join_lines ys
unfolding join_lines
join_lines-append [] ys h q = cc
join_lines-append (x ∷ []) [] h q = cc
join_lines-append (x ∷ []) (y ∷ ys) h q = refl
join_lines-append (x ∷ x' ∷ xs) ys h q =
    ap (λ t. x ++ newline ∷ t) (join_lines-append (x' ∷ xs) ys refl q)
    ∙ sym (append_assoc x (newline ∷ join_lines (x' ∷ xs)) (newline ∷ join_lines ys))

is_empty-append : (xs ys : List Text) → is_empty ys ≡ false → is_empty (xs ++ ys) ≡ false
is_empty-append [] ys q = q
is_empty-append (x ∷ xs) ys q = refl

is_empty_eq : (xs : List Text) → is_empty xs ≡ true → xs ≡ []
is_empty_eq [] h = refl
is_empty_eq (x ∷ xs) h = cc

module _ (digest : ℕ → Text → Text) (chunk_size : ℕ) (language : Text) where
  abbrev pub contents : List CodeChunk → List Text
  contents = map (λ c. c.content)

  is_empty-chunk_lines :
      (n : ℕ) (current : List Text) (len : ℕ) (lines : List Text)
      → is_empty current ≡ false
      → is_empty (contents (chunk_lines digest chunk_size language n current len lines)) ≡ false
  unfolding chunk_lines
  is_empty-chunk_lines n current len [] h = rw h refl
  is_empty-chunk_lines n current len (line ∷ lines) h =
      elim (Bool-cases (ltb chunk_size (len + length line) && not (is_empty current))) [
        | inl full ↦ rw full refl
        | inr room ↦ rw room (
            is_empty-chunk_lines n (current ++ line ∷ []) (len + length line + 1) lines
              (is_empty-append current (line ∷ []) refl))
      ]

  join_lines-chunk_lines :
      (n : ℕ) (current : List Text) (len : ℕ) (lines : List Text)
      → join_lines (contents (chunk_lines digest chunk_size language n current len lines))
        ≡ join_lines (current ++ lines)
  unfolding chunk_lines code_chunk join_lines
  join_lines-chunk_lines n current len [] = elim (Bool-cases (is_empty current)) [
    | inl none_left ↦ rw none_left (rw (is_empty_eq current none_left) refl)
    | inr some_left ↦ rw some_left (ap join_lines (sym (append-nil current)))
  ]
  join_lines-chunk_lines n current len (line ∷ lines) =
      elim (Bool-cases (ltb chunk_size (len + length line) && not (is_empty current))) [
        | inl full ↦
            let started : is_empty current ≡ false = ground arith in
            let rest =
              chunk_lines digest chunk_size language (n + 1) (line ∷ []) (length line + 1) lines in
            rw full (
              join_lines-append (join_lines current ∷ []) (contents rest) refl
                (is_empty-chunk_lines (n + 1) (line ∷ []) (length line + 1) lines refl)
              ∙ ap (λ t. join_lines current ++ newline ∷ t)
                  (join_lines-chunk_lines (n + 1) (line ∷ []) (length line + 1) lines)
              ∙ sym (join_lines-append current (line ∷ lines) started refl))
        | inr room ↦ rw room (
            join_lines-chunk_lines n (current ++ line ∷ []) (len + length line + 1) lines
            ∙ ap join_lines (append_assoc current (line ∷ []) lines))
      ]

  -- Joined by line ends, the contents of the chunks are the text: no character is lost or added.
  pub join_lines-chunk :
      (content : Text) → join_lines (contents (chunk digest chunk_size language content)) ≡ content
  unfolding chunk join_lines
  join_lines-chunk [] = refl
  join_lines-chunk (c ∷ s) =
      join_lines-chunk_lines 0 [] 0 (split_lines (c ∷ s)) ∙ join_lines-split_lines (c ∷ s)

  -- The chunk keeps to the size, or is one line.
  abbrev pub fits : CodeChunk → Bool
  fits c = leb (length c.content) chunk_size || nat_eqb c.end_line 1

  -- What the loop knows of the lines at hand: their length with the line ends, and that they fit.
  record IsCounted (current : List Text) (len : ℕ) : Type 0 where
    start : is_empty current ≡ true → len ≡ 0
    counted : is_empty current ≡ false → length (join_lines current) + 1 ≡ len
    fitting :
        is_empty current ≡ false → fits (code_chunk digest chunk_size language 0 current) ≡ true

  single-IsCounted : (line : Text) → IsCounted (line ∷ []) (length line + 1)
  unfolding join_lines code_chunk
  single-IsCounted line = record {
    start = λ h. cc;
    counted = λ h. refl;
    fitting = λ h. ground arith;
  }

  length-join_lines-snoc :
      (current : List Text) (line : Text)
      → is_empty current ≡ false
      → length (join_lines (current ++ line ∷ [])) ≡ length (join_lines current) + 1 + length line
  unfolding join_lines
  length-join_lines-snoc current line h =
      rw (join_lines-append current (line ∷ []) h refl)
        (omega (arith, length-append (join_lines current) (newline ∷ line)))

  snoc-IsCounted :
      (current : List Text) (len : ℕ) (line : Text)
      → IsCounted current len
      → (ltb chunk_size (len + length line) && not (is_empty current)) ≡ false
      → IsCounted (current ++ line ∷ []) (len + length line + 1)
  unfolding code_chunk
  snoc-IsCounted [] len line h room =
      let e : len + length line + 1 ≡ length line + 1 = omega (arith, h.start refl) in
      rw e (single-IsCounted line)
  snoc-IsCounted (l ∷ ls) len line h room = record {
    start = λ e. cc;
    counted = λ e. omega (arith, length-join_lines-snoc (l ∷ ls) line refl, h.counted refl);
    fitting = λ e. ground (arith, length-join_lines-snoc (l ∷ ls) line refl, h.counted refl);
  }

  chunk_lines-fits :
      (n : ℕ) (current : List Text) (len : ℕ) (lines : List Text)
      → IsCounted current len
      → any (λ c. not (fits c)) (chunk_lines digest chunk_size language n current len lines) ≡ false
  unfolding chunk_lines code_chunk
  chunk_lines-fits n current len [] h = elim (Bool-cases (is_empty current)) [
    | inl none_left ↦ rw none_left refl
    | inr some_left ↦ rw some_left (rw (h.fitting some_left) refl)
  ]
  chunk_lines-fits n current len (line ∷ lines) h =
      elim (Bool-cases (ltb chunk_size (len + length line) && not (is_empty current))) [
        | inl full ↦
            let started : is_empty current ≡ false = ground arith in
            rw full (
              rw (h.fitting started) (
                chunk_lines-fits (n + 1) (line ∷ []) (length line + 1) lines
                  (single-IsCounted line)))
        | inr room ↦ rw room (
            chunk_lines-fits n (current ++ line ∷ []) (len + length line + 1) lines
              (snoc-IsCounted current len line h room))
      ]

  -- Every chunk is at most `chunk_size` long or is one line.
  pub chunk_bounds :
      (content : Text) → any (λ c. not (fits c)) (chunk digest chunk_size language content) ≡ false
  unfolding chunk
  chunk_bounds [] = refl
  chunk_bounds (c ∷ s) =
      chunk_lines-fits 0 [] 0 (split_lines (c ∷ s))
        (record { start = λ h. refl; counted = λ h. cc; fitting = λ h. cc })
