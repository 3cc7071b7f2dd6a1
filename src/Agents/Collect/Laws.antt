-- ===== src/Agents/Collect/Laws.antt =====
-- collect.ts: which ids are collected.
use caladon.Prelude.{
  ◌≡◌, refl, ap, ◌∙◌, arith, String, ◌==◌, eq_iff, eq_refl, Bool, true, false, not, ◌&&◌,
  Bool-cases, inl, inr, Option, some, List, [], ◌∷◌, map,
}
use caladon.Store.Action.{Json, Fields, obj}
use caladon.Store.Fork.{mem_text}
use caladon.Agents.Collect.{
  id_of, is_self, is_kept, pushed, distinct, named, collected, of_parsed, collect_subagent_ids,
}

and_true : (b : Bool) → (b && true) ≡ b
and_true true = refl
and_true false = refl

mem-distinct :
    (x : String) (seen xs : List String)
    → mem_text x (distinct seen xs) ≡ (mem_text x xs && not (mem_text x seen))
unfolding mem_text distinct
mem-distinct x seen [] = refl
mem-distinct x seen (y ∷ ys) = elim (Bool-cases (mem_text y seen)) [
  | inl old ↦ elim (Bool-cases (y == x)) [
    | inl same ↦
        let e = (eq_iff y x).0 same in
        ground (arith, mem-distinct x seen ys, old, same, ap (λ k. mem_text k seen) e)
    | inr other ↦ rw (old, other) (mem-distinct x seen ys)
  ]
  | inr new ↦ elim (Bool-cases (y == x)) [
    | inl same ↦ ground (arith, new, same, ap (λ k. mem_text k seen) ((eq_iff y x).0 same))
    | inr other ↦ rw (new, other, mem-distinct x (y ∷ seen) ys, other) refl
  ]
]

-- No text stands twice.
unfoldable pub are_distinct : List String → Bool
unfolding mem_text
are_distinct [] = true
are_distinct (x ∷ xs) = not (mem_text x xs) && are_distinct xs

are_distinct-distinct : (seen xs : List String) → are_distinct (distinct seen xs) ≡ true
unfolding are_distinct distinct
are_distinct-distinct seen [] = refl
are_distinct-distinct seen (x ∷ xs) = elim (Bool-cases (mem_text x seen)) [
  | inl old ↦ rw old (are_distinct-distinct seen xs)
  | inr new ↦
      rw (new, mem-distinct x (x ∷ seen) xs, are_distinct-distinct (x ∷ seen) xs)
        (ground (arith, eq_refl x))
]

mem-pushed :
    (self : Option String) (x : String) (vs : List (Option Json))
    → mem_text x (pushed self vs) ≡ (mem_text x (map id_of vs) && is_kept self x)
unfolding mem_text pushed
mem-pushed self x [] = refl
mem-pushed self x (v ∷ vs) = elim (Bool-cases (is_kept self (id_of v))) [
  | inl kept ↦ elim (Bool-cases (id_of v == x)) [
    | inl same ↦
        ground
          (arith, kept, same, mem-pushed self x vs, ap (is_kept self) ((eq_iff (id_of v) x).0 same))
    | inr other ↦ rw (kept, other, mem-pushed self x vs) refl
  ]
  | inr out ↦ elim (Bool-cases (id_of v == x)) [
    | inl same ↦
        ground
          (arith, out, same, mem-pushed self x vs, ap (is_kept self) ((eq_iff (id_of v) x).0 same))
    | inr other ↦ rw (out, other, mem-pushed self x vs) refl
  ]
]

-- What is collected for the configuration `cfg` of an agent: the call returns; no id stands twice; and
-- an id is among them exactly if one of the three controls names it, it is not empty and it is not
-- the agent's own.
pub record IsChain (self : Option String) (cfg : Fields) (result : Option (List String))
    : Type 0 where
  pub ids : List String
  pub returned : result ≡ some ids
  pub once : are_distinct ids ≡ true
  pub exactly :
      (x : String)
      → mem_text x ids
        ≡ (mem_text x (map id_of (named cfg)) && (not (x == "") && not (is_self x self)))

-- For a configuration that reads as an object collectSubagentIds returns ids of which none stands
-- twice; an id is among them exactly if one of the three controls names it, it is not empty and it
-- is not the agent's own.
pub collect_subagent_ids-IsChain :
    (parse : String → Option Json) (self : Option String) (config : String) (cfg : Fields)
    → (config == "") ≡ false
    → parse config ≡ some (obj cfg)
    → IsChain self cfg (collect_subagent_ids parse (some config) self)
unfolding collect_subagent_ids of_parsed collected is_kept
collect_subagent_ids-IsChain parse self config cfg full parsed = record {
  ids = distinct [] (pushed self (named cfg));
  returned = rw (full, parsed) refl;
  once = are_distinct-distinct [] (pushed self (named cfg));
  exactly = λ x.
      mem-distinct x [] (pushed self (named cfg))
      ∙ (and_true (mem_text x (pushed self (named cfg))) ∙ mem-pushed self x (named cfg));
}
