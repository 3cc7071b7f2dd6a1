-- ===== src/Sdk/Text.antt =====
-- JavaScript's texts where a program walks them: a text is the list of its UTF-16 code units.
use Prim.Native.Char.{code}
use caladon.Prelude.{
  ℕ, String, List, [], ◌∷◌, Bool, true, false, ◌||◌, ◌&&◌, leb, eqb, if◌then◌else◌,
}

abbrev pub Text : Type 0
Text = List ℕ

-- a literal of characters that are one code unit each
abbrev pub codes : String → Text
codes String.[] = []
codes (String.◌∷◌ c s) = code c ∷ codes s

-- The white space and line terminators of ECMAScript: what `\s` matches and `trim` removes.
unfoldable pub is_space : ℕ → Bool
is_space c =
    (leb 9 c && leb c 13)
    || eqb c 32
    || eqb c 160
    || eqb c 0x1680
    || (leb 0x2000 c && leb c 0x200a)
    || eqb c 0x2028
    || eqb c 0x2029
    || eqb c 0x202f
    || eqb c 0x205f
    || eqb c 0x3000
    || eqb c 0xfeff

unfoldable pub starts_with : Text → Text → Bool
starts_with [] s = true
starts_with (c ∷ p) [] = false
starts_with (c ∷ p) (d ∷ s) = eqb c d && starts_with p s

-- s.includes(p)
unfoldable pub includes : Text → Text → Bool
unfolding starts_with
includes p [] = starts_with p []
includes p (c ∷ s) = starts_with p (c ∷ s) || includes p s

unfoldable pub trim_start : Text → Text
unfolding is_space
trim_start [] = []
trim_start (c ∷ s) = let rest = trim_start s in if is_space c then rest else c ∷ s

-- A character before the trimmed rest; a space stays only if something follows.
unfoldable pub join_end : ℕ → Text → Text
unfolding is_space
join_end c [] = if is_space c then [] else c ∷ []
join_end c (d ∷ t) = c ∷ d ∷ t

unfoldable pub trim_end : Text → Text
unfolding join_end
trim_end [] = []
trim_end (c ∷ s) = join_end c (trim_end s)

unfoldable pub trim : Text → Text
unfolding trim_start trim_end
trim s = trim_start (trim_end s)
