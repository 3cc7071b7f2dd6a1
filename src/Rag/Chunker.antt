-- ===== src/Rag/Chunker.antt =====
-- web-client/overlay/client/src/lib/rag/chunker.ts: splitting a document into chunks.
pub mod Split
pub mod Bounds
use caladon.Sdk.Text.{Text, trim}
use caladon.Prelude.{
  ℕ, zero, suc, ◌+◌, ◌-◌, ◌*◌, min, max, Bool, false, ◌&&◌, Option, none, some, List, [], ◌∷◌, ◌++◌,
  eqb, ltb, leb, if◌then◌else◌, length, take, drop,
}
use caladon.Rag.Chunker.Split.{split_into_segments}

abbrev pub chars_per_token : ℕ
chars_per_token = 4

abbrev pub default_chunk_tokens : ℕ
default_chunk_tokens = 200

abbrev pub default_overlap_tokens : ℕ
default_overlap_tokens = 40

abbrev pub min_chunk_chars : ℕ
min_chunk_chars = 16

pub record ChunkOptions : Type 0 where
  pub chunk_tokens : Option ℕ
  pub overlap_tokens : Option ℕ

abbrev pub shifted : Option ℕ → Option ℕ
shifted none = none
shifted (some i) = some (suc i)

-- slice.indexOf(' '), or none for -1
unfoldable pub index_of_space : Text → Option ℕ
index_of_space [] = none
index_of_space (c ∷ t) = let rest = index_of_space t in if eqb c 32 then some 0 else shifted rest

-- The tail from its first word boundary, where that boundary is in its first half. `space < n / 2`
-- is on numbers that may be fractions.
unfoldable pub snap : ℕ → Text → Option ℕ → Text
snap n slice none = slice
snap n slice (some space) =
    if ltb 0 space && ltb (2 * space) n then drop (space + 1) slice else slice

unfoldable pub tail : Text → ℕ → Text
unfolding snap index_of_space
tail s n =
    if leb (length s) n
    then s
    else (let slice = drop (length s - n) s in snap n slice (index_of_space slice))

-- The state of the loop of chunkText: the chunks so far, and `current`.
pub record Chunking : Type 0 where
  pub chunks : List Text
  pub current : Text

abbrev pub push_chunk : List Text → Text → List Text
push_chunk chunks c = if leb min_chunk_chars (length c) then chunks ++ c ∷ [] else chunks

abbrev pub overlap_of : ℕ → Text → Text
overlap_of overlap_chars s = if ltb 0 overlap_chars then tail s overlap_chars else []

unfoldable pub flush : ℕ → Chunking → Chunking
unfolding trim tail
flush overlap_chars s = record {
  chunks = push_chunk s.chunks (trim s.current);
  current = overlap_of overlap_chars (trim s.current);
}

-- One round of the `while`, which cuts a chunk off a `current` over the budget.
unfoldable pub cut : ℕ → ℕ → Chunking → Chunking
unfolding trim tail
cut max_chars overlap_chars s =
    let head = trim (take max_chars s.current) in
    record {
      chunks = push_chunk s.chunks head;
      current = overlap_of overlap_chars head ++ drop max_chars s.current;
    }

-- while (current.length > maxChars), on fuel
unfoldable pub cut_down : ℕ → ℕ → ℕ → Chunking → Chunking
unfolding cut
cut_down zero max_chars overlap_chars s = s
cut_down (suc fuel) max_chars overlap_chars s =
    let rest = cut_down fuel max_chars overlap_chars (cut max_chars overlap_chars s) in
    if ltb max_chars (length s.current) then rest else s

-- current ? `${current}\n${seg}` : seg
abbrev pub join_segment : Text → Text → Text
join_segment [] seg = seg
join_segment (c ∷ t) seg = (c ∷ t) ++ 10 ∷ seg

abbrev pub is_full : ℕ → Text → Text → Bool
is_full max_chars [] seg = false
is_full max_chars (c ∷ t) seg = ltb max_chars (length (c ∷ t) + length seg + 1)

abbrev pub flush_if : Bool → ℕ → Chunking → Chunking
flush_if full overlap_chars s = if full then flush overlap_chars s else s

abbrev pub with_segment : Text → Chunking → Chunking
with_segment seg s = record s { current = join_segment s.current seg }

unfoldable pub add_segment : ℕ → ℕ → Text → Chunking → Chunking
unfolding flush cut_down
add_segment max_chars overlap_chars seg s =
    let joined = with_segment seg (flush_if (is_full max_chars s.current seg) overlap_chars s) in
    cut_down (length joined.current) max_chars overlap_chars joined

unfoldable pub add_segments : ℕ → ℕ → List Text → Chunking → Chunking
unfolding add_segment
add_segments max_chars overlap_chars [] s = s
add_segments max_chars overlap_chars (seg ∷ segs) s =
    add_segments max_chars overlap_chars segs (add_segment max_chars overlap_chars seg s)

-- text.replace(/\r\n?/g, '\n'): a carriage return before a line feed goes, another becomes one.
unfoldable pub unix_newlines : Text → Text
unix_newlines [] = []
unix_newlines (c ∷ []) = if eqb c 13 then 10 ∷ [] else c ∷ []
unix_newlines (c ∷ d ∷ t) =
    let rest = unix_newlines (d ∷ t) in
    if eqb c 13 then (if eqb d 10 then rest else 10 ∷ rest) else c ∷ rest

abbrev pub or_tokens : ℕ → Option ℕ → ℕ
or_tokens d none = d
or_tokens d (some n) = n

abbrev pub chunk_tokens_of : ChunkOptions → ℕ
chunk_tokens_of options = max 32 (or_tokens default_chunk_tokens options.chunk_tokens)

abbrev pub max_chars_of : ChunkOptions → ℕ
max_chars_of options = chunk_tokens_of options * chars_per_token

abbrev pub overlap_chars_of : ChunkOptions → ℕ
overlap_chars_of options =
    min (or_tokens default_overlap_tokens options.overlap_tokens) (chunk_tokens_of options - 1)
    * chars_per_token

abbrev pub last_chunk : Chunking → List Text
last_chunk s = push_chunk s.chunks (trim s.current)

unfoldable pub chunk_text : Text → ChunkOptions → List Text
unfolding unix_newlines trim split_into_segments add_segments
chunk_text text options =
    let normalized = trim (unix_newlines text) in
    if eqb (length normalized) 0
    then []
    else last_chunk (
        add_segments (max_chars_of options) (overlap_chars_of options)
          (split_into_segments normalized (max_chars_of options))
          (record { chunks = []; current = [] }))
