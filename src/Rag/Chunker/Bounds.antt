-- ===== src/Rag/Chunker/Bounds.antt =====
-- chunker.ts: the size of every chunk, and the end of the loop that cuts them.
use caladon.Rag.Chunker.Split.{split_into_segments}
use caladon.Sdk.Text.{Text, join_end, trim, trim_end, trim_start}
use caladon.Rag.Chunker.{
  Chunking, cut, cut_down, index_of_space, min_chunk_chars, overlap_of, push_chunk, snap, tail,
  ChunkOptions, add_segment, add_segments, chunk_text, flush, flush_if, is_full, last_chunk,
  max_chars_of, overlap_chars_of, unix_newlines, with_segment,
}
use caladon.Prelude.{
  ℕ, zero, suc, ◌+◌, ◌-◌, ◌≤◌, ◌<◌, Bool-cases, inl, inr, Option, none, some, List, [], ◌∷◌, All,
  All-append, length, length-drop, drop, arith, ltb, leb, Bool, eqb, false, length-append,
  length-take, take, true, ◌++◌,
}

-- A chunk of at least 16 characters and at most the budget.
abbrev pub InBudget : ℕ → Text → Type 0
InBudget max_chars c = (min_chunk_chars ≤ length c) × (length c ≤ max_chars)

length-trim_start : (s : Text) → length (trim_start s) ≤ length s
unfolding trim_start
length-trim_start [] = omega arith
length-trim_start (c ∷ s) = ground (arith, length-trim_start s)

length-join_end : (c : ℕ) (s : Text) → length (join_end c s) ≤ 1 + length s
unfolding join_end
length-join_end c [] = ground arith
length-join_end c (d ∷ t) = ground arith

length-trim_end : (s : Text) → length (trim_end s) ≤ length s
unfolding trim_end
length-trim_end [] = omega arith
length-trim_end (c ∷ s) = omega (arith, length-trim_end s, length-join_end c (trim_end s))

pub length-trim : (s : Text) → length (trim s) ≤ length s
unfolding trim
length-trim s = omega (arith, length-trim_end s, length-trim_start (trim_end s))

length-snap : (n : ℕ) (s : Text) (o : Option ℕ) → length (snap n s o) ≤ length s
unfolding snap
length-snap n s none = omega arith
length-snap n s (some space) = ground (arith, length-drop (space + 1) s)

pub length-tail : (s : Text) (n : ℕ) → length (tail s n) ≤ n
unfolding tail
length-tail s n = ground (
  arith,
  length-drop (length s - n) s,
  length-snap n (drop (length s - n) s) (index_of_space (drop (length s - n) s)),
)

length-overlap_of : (n : ℕ) (s : Text) → length (overlap_of n s) ≤ n
length-overlap_of n s = ground (arith, length-tail s n)

-- What the loop keeps of the chunks, and what it re-establishes of `current`.
pub record IsWithin (max_chars : ℕ) (s : Chunking) : Type 0 where
  pub chunks_fit : All (InBudget max_chars) s.chunks
  pub current_fits : length s.current ≤ max_chars

push_chunk-InBudget :
    (max_chars : ℕ) (chunks : List Text) (c : Text)
    → All (InBudget max_chars) chunks
    → length c ≤ max_chars
    → All (InBudget max_chars) (push_chunk chunks c)
push_chunk-InBudget max_chars chunks c h fits = elim (Bool-cases (leb min_chunk_chars (length c))) [
  | inl long ↦
      rw long (All-append (InBudget max_chars) chunks (c ∷ []) h ((ground arith, fits), tt))
  | inr short ↦ rw short h
]

module _ (max_chars overlap_chars : ℕ) (smaller : overlap_chars < max_chars) where
  -- The loop that cuts ends within as many rounds as `current` has characters, with a rest within
  -- the budget and only chunks within it.
  cut_down-IsWithin :
      (fuel : ℕ) (s : Chunking)
      → length s.current ≤ fuel
      → All (InBudget max_chars) s.chunks
      → IsWithin max_chars (cut_down fuel max_chars overlap_chars s)
  unfolding cut_down cut
  cut_down-IsWithin zero s enough h = record { chunks_fit = h; current_fits = omega arith }
  cut_down-IsWithin (suc fuel) s enough h = elim (Bool-cases (ltb max_chars (length s.current))) [
    | inl over ↦
        let head = trim (take max_chars s.current) in
        let short : length head ≤ max_chars =
          omega (arith, length-trim (take max_chars s.current), length-take max_chars s.current) in
        let less : length (overlap_of overlap_chars head ++ drop max_chars s.current) ≤ fuel =
          ground (
            arith,
            length-append (overlap_of overlap_chars head) (drop max_chars s.current),
            length-overlap_of overlap_chars head,
            length-drop max_chars s.current,
          ) in
        rw over (
          cut_down-IsWithin fuel
            (record {
              chunks = push_chunk s.chunks head;
              current = overlap_of overlap_chars head ++ drop max_chars s.current;
            })
            less (push_chunk-InBudget max_chars s.chunks head h short))
    | inr fits ↦ rw fits (record { chunks_fit = h; current_fits = ground arith })
  ]

  flush_if-InBudget :
      (full : Bool) (s : Chunking)
      → IsWithin max_chars s
      → All (InBudget max_chars) (flush_if full overlap_chars s).chunks
  unfolding flush
  flush_if-InBudget true s h =
      push_chunk-InBudget max_chars s.chunks (trim s.current) h.chunks_fit
        (omega (arith, length-trim s.current, h.current_fits))
  flush_if-InBudget false s h = h.chunks_fit

  add_segment-IsWithin :
      (seg : Text) (s : Chunking)
      → IsWithin max_chars s
      → IsWithin max_chars (add_segment max_chars overlap_chars seg s)
  unfolding add_segment
  add_segment-IsWithin seg s h =
      let full = is_full max_chars s.current seg in
      let joined = with_segment seg (flush_if full overlap_chars s) in
      cut_down-IsWithin (length joined.current) joined (omega arith) (flush_if-InBudget full s h)

  add_segments-IsWithin :
      (segs : List Text) (s : Chunking)
      → IsWithin max_chars s
      → IsWithin max_chars (add_segments max_chars overlap_chars segs s)
  unfolding add_segments
  add_segments-IsWithin [] s h = h
  add_segments-IsWithin (seg ∷ segs) s h =
      add_segments-IsWithin segs (add_segment max_chars overlap_chars seg s)
        (add_segment-IsWithin seg s h)

  last_chunk-InBudget :
      (s : Chunking) → IsWithin max_chars s → All (InBudget max_chars) (last_chunk s)
  last_chunk-InBudget s h =
      push_chunk-InBudget max_chars s.chunks (trim s.current) h.chunks_fit
        (omega (arith, length-trim s.current, h.current_fits))

overlap-smaller : (options : ChunkOptions) → overlap_chars_of options < max_chars_of options
overlap-smaller options = omega arith

-- Whatever the text and the options, every chunk of chunkText has at least 16 characters and at most
-- four times the tokens asked for, of which at least 32 are granted.
pub chunk_text-InBudget :
    (text : Text) (options : ChunkOptions)
    → All (InBudget (max_chars_of options)) (chunk_text text options)
unfolding chunk_text
chunk_text-InBudget text options =
    let normalized = trim (unix_newlines text) in
    elim (Bool-cases (eqb (length normalized) 0)) [
      | inl empty ↦ rw empty tt
      | inr some_text ↦ rw some_text (
          last_chunk-InBudget (max_chars_of options) (overlap_chars_of options)
            (overlap-smaller options)
            (add_segments (max_chars_of options) (overlap_chars_of options)
              (split_into_segments normalized (max_chars_of options))
              (record { chunks = []; current = [] }))
            (add_segments-IsWithin (max_chars_of options) (overlap_chars_of options)
              (overlap-smaller options) (split_into_segments normalized (max_chars_of options))
              (record { chunks = []; current = [] })
              (record { chunks_fit = tt; current_fits = omega arith })))
    ]
