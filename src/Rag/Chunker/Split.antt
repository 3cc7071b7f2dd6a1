-- ===== src/Rag/Chunker/Split.antt =====
-- chunker.ts: splitIntoSegments, splitSentences and splitWords, with the splits by regular
-- expressions written as scans.
use caladon.Sdk.Text.{Text, is_space, trim}
use caladon.Prelude.{
  ℕ, zero, suc, ◌+◌, Bool, false, ◌&&◌, ◌||◌, List, [], ◌∷◌, ◌++◌, eqb, ltb, leb, if◌then◌else◌,
  length, take, drop,
}

-- A text goes on the list unless it is empty.
abbrev pub when_nonempty : Text → List Text → List Text
when_nonempty [] ls = ls
when_nonempty (c ∷ t) ls = (c ∷ t) ∷ ls

-- The words of a text between runs of characters of a class, the empty ones left out: `word` is the
-- part of the current word that was read.
unfoldable pub words_by : (ℕ → Bool) → Text → Text → List Text
words_by sep word [] = when_nonempty word []
words_by sep word (c ∷ t) =
    let cut_here = words_by sep [] t in
    let go_on = words_by sep (word ++ c ∷ []) t in
    if sep c then when_nonempty word cut_here else go_on

-- text.split(/\n{2,}/): a run of two line feeds or more ends a paragraph. `para` is the part of the
-- paragraph that was read, without the line feeds after it, which `feeds` counts.
abbrev pub feed_run : ℕ → Text
feed_run zero = []
feed_run (suc zero) = 10 ∷ []
feed_run (suc (suc n)) = []

unfoldable pub paragraphs_from : Text → ℕ → Text → List Text
paragraphs_from para feeds [] = (para ++ feed_run feeds) ∷ []
paragraphs_from para feeds (c ∷ t) =
    let feed = paragraphs_from para (suc feeds) t in
    let same = paragraphs_from (para ++ feed_run feeds ++ c ∷ []) 0 t in
    let fresh = paragraphs_from (c ∷ []) 0 t in
    if eqb c 10 then feed else if leb 2 feeds then para ∷ fresh else same

abbrev pub is_stop : ℕ → Bool
is_stop c = eqb c b'.' || eqb c b'?' || eqb c b'!'

-- Where the scan of splitSentences stands: in a sentence, in white space after a stop, or in line
-- feeds.
pub data SentenceScan : Type 0 where
  in_text in_space in_feeds : SentenceScan

-- text.split(/(?<=[.?!])\s+|\n+/): `text` is the part of the sentence that was read and `stopped`
-- whether its last character is a stop.
unfoldable pub sentences_from : Text → Bool → SentenceScan → Text → List Text
unfolding is_space
sentences_from text stopped scan [] = text ∷ []
sentences_from text stopped in_text (c ∷ t) =
    let spaces = sentences_from [] false in_space t in
    let feeds = sentences_from [] false in_feeds t in
    let same = sentences_from (text ++ c ∷ []) (is_stop c) in_text t in
    if stopped && is_space c then text ∷ spaces else if eqb c 10 then text ∷ feeds else same
sentences_from text stopped in_space (c ∷ t) =
    let spaces = sentences_from [] false in_space t in
    let fresh = sentences_from (c ∷ []) (is_stop c) in_text t in
    if is_space c then spaces else fresh
sentences_from text stopped in_feeds (c ∷ t) =
    let feeds = sentences_from [] false in_feeds t in
    let fresh = sentences_from (c ∷ []) (is_stop c) in_text t in if eqb c 10 then feeds else fresh

-- map(trim).filter(Boolean)
unfoldable pub trimmed : List Text → List Text
unfolding trim
trimmed [] = []
trimmed (s ∷ ss) = when_nonempty (trim s) (trimmed ss)

unfoldable pub split_sentences : Text → List Text
unfolding sentences_from trimmed
split_sentences text = trimmed (sentences_from [] false in_text text)

-- for (let i = 0; i < word.length; i += maxChars), on fuel
unfoldable pub slices : ℕ → ℕ → Text → List Text
slices zero max_chars word = []
slices (suc fuel) max_chars [] = []
slices (suc fuel) max_chars (c ∷ word) =
    take max_chars (c ∷ word) ∷ slices fuel max_chars (drop max_chars (c ∷ word))

-- line ? `${line} ${word}` : word
abbrev pub join_word : Text → Text → Text
join_word [] word = word
join_word (c ∷ line) word = (c ∷ line) ++ 32 ∷ word

abbrev pub overflows : ℕ → Text → Text → Bool
overflows max_chars [] word = false
overflows max_chars (c ∷ line) word = ltb max_chars (length (c ∷ line) + length word + 1)

-- The loop of splitWords from a word on, with the `line` that is being packed.
unfoldable pub pack_words : ℕ → Text → List Text → List Text
unfolding slices
pack_words max_chars line [] = when_nonempty line []
pack_words max_chars line (word ∷ words) =
    let alone = pack_words max_chars [] words in
    let fresh = pack_words max_chars word words in
    let joined = pack_words max_chars (join_word line word) words in
    if ltb max_chars (length word)
    then when_nonempty line (slices (length word) max_chars word ++ alone)
    else if overflows max_chars line word
    then line ∷ fresh
    else joined

-- Its text is a trimmed sentence, whose split by white space has no empty word.
unfoldable pub split_words : Text → ℕ → List Text
unfolding words_by is_space pack_words
split_words text max_chars = pack_words max_chars [] (words_by is_space [] text)

unfoldable pub fit_sentences : ℕ → List Text → List Text
unfolding split_words
fit_sentences max_chars [] = []
fit_sentences max_chars (s ∷ ss) =
    (if leb (length s) max_chars then s ∷ [] else split_words s max_chars)
    ++ fit_sentences max_chars ss

-- The segments of the trimmed paragraphs.
unfoldable pub fit_paragraphs : ℕ → List Text → List Text
unfolding fit_sentences split_sentences
fit_paragraphs max_chars [] = []
fit_paragraphs max_chars (p ∷ ps) =
    (if leb (length p) max_chars then p ∷ [] else fit_sentences max_chars (split_sentences p))
    ++ fit_paragraphs max_chars ps

unfoldable pub split_into_segments : Text → ℕ → List Text
unfolding fit_paragraphs paragraphs_from trimmed
split_into_segments text max_chars = fit_paragraphs max_chars (trimmed (paragraphs_from [] 0 text))
