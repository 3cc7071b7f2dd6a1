-- ===== src/Store/Fork/Lineage.antt =====
-- store.worker.ts, forkConversation: the walk from the fork point to the root.
use caladon.Store.Fork.{mem_text, parent_of, stored_key, walk, lineage_of}
use caladon.Store.Rows.{StoredMessage}
use caladon.Table.{find, has, IsKeyed}
use caladon.Prelude.{
  ℕ, zero, suc, ◌≤◌, ◌<◌, ◌≡◌, refl, sym, ◌∙◌, String, ◌==◌, eq_iff, true, false, Bool-cases, ◌⊎◌,
  inl, inr, Option, none, some, List, [], ◌∷◌, map, length, arith, if◌then◌else◌, subst,
  Option-cases, eq_refl,
}

-- The messages that the walk has not met.
unseen : List StoredMessage → List String → ℕ
unseen [] guard = 0
unseen (m ∷ ms) guard =
    let rest = unseen ms guard in if mem_text m.message_id guard then rest else suc rest

unseen_all : (ms : List StoredMessage) → unseen ms [] ≡ length ms
unfolding unseen mem_text
unseen_all [] = refl
unseen_all (m ∷ ms) = omega (arith, unseen_all ms)

unseen-cons_le :
    (ms : List StoredMessage) (k : String) (guard : List String)
    → unseen ms (k ∷ guard) ≤ unseen ms guard
unfolding unseen mem_text
unseen-cons_le [] k guard = omega arith
unseen-cons_le (m ∷ ms) k guard = ground (arith, unseen-cons_le ms k guard)

unseen-cons_lt :
    (ms : List StoredMessage) (k : String) (guard : List String)
    → has stored_key k ms ≡ true
    → mem_text k guard ≡ false
    → unseen ms (k ∷ guard) < unseen ms guard
unfolding unseen mem_text has
unseen-cons_lt [] k guard found new = absurd (ground arith)
unseen-cons_lt (m ∷ ms) k guard found new = elim (Bool-cases (m.message_id == k)) [
  | inl here ↦
      let same : m.message_id ≡ k = (eq_iff m.message_id k).0 here in
      let new_m : mem_text m.message_id guard ≡ false =
        subst (λ j. mem_text j guard ≡ false) (sym same) new in
      let back : (k == m.message_id) ≡ true = (eq_iff k m.message_id).1 (sym same) in
      ground (arith, unseen-cons_le ms k guard)
  | inr there ↦ ground (arith, unseen-cons_lt ms k guard)
]

mem_text-map :
    (k : String) (l : List StoredMessage) → mem_text k (map stored_key l) ≡ has stored_key k l
unfolding mem_text has
mem_text-map k [] = refl
mem_text-map k (m ∷ l) = rw (mem_text-map k l)

find-has :
    (k : String) (ms : List StoredMessage) (m : StoredMessage)
    → find stored_key k ms ≡ some m
    → has stored_key m.message_id ms ≡ true
unfolding find has
find-has k [] m h = absurd (ground arith)
find-has k (x ∷ ms) m h = elim (Bool-cases (x.message_id == k)) [
  | inl here ↦ ground (arith, eq_refl x.message_id)
  | inr there ↦ ground (arith, find-has k ms m)
]

parent_of-has :
    (all : List StoredMessage) (c m : StoredMessage)
    → parent_of all c ≡ some m
    → has stored_key m.message_id all ≡ true
unfolding parent_of
parent_of-has all c m h = elim (Option-cases c.parent_message_id) [
  | inl root ↦ absurd (ground arith)
  | inr (p, e) ↦ find-has p all m (ground arith)
]

-- The list, read from its end, is the way from `start` to its parent, that one's parent and so on,
-- and `next` is where the way goes on.
abbrev pub Leads :
    List StoredMessage → Option StoredMessage → Option StoredMessage → List StoredMessage → Type 0
Leads all start next [] = next ≡ start
Leads all start next (m ∷ l) = (next ≡ parent_of all m) × Leads all start (some m) l

-- A whole lineage: a way from the fork point, on which no message stands twice, and which ends only
-- at a message without a parent in the conversation or whose parent is on the way already.
pub record IsLineage (all : List StoredMessage) (start : Option StoredMessage)
    (l : List StoredMessage) : Type 0 where
  pub next : Option StoredMessage
  pub leads : Leads all start next l
  pub distinct : IsKeyed stored_key l
  pub stops :
      (next ≡ none)
      ⊎ ((m : StoredMessage) × (next ≡ some m) × (has stored_key m.message_id l ≡ true))

walk-IsLineage :
    (all : List StoredMessage) (start : Option StoredMessage) (fuel : ℕ)
    (cur : Option StoredMessage) (l : List StoredMessage)
    → unseen all (map stored_key l) < fuel
    → ((m : StoredMessage) → cur ≡ some m → has stored_key m.message_id all ≡ true)
    → Leads all start cur l
    → IsKeyed stored_key l
    → IsLineage all start (walk fuel all cur (map stored_key l) l)
unfolding walk
walk-IsLineage all start zero cur l enough found leads keyed = absurd (omega arith)
walk-IsLineage all start (suc fuel) none l enough found leads keyed = record {
  next = none;
  leads = leads;
  distinct = keyed;
  stops = inl refl;
}
walk-IsLineage all start (suc fuel) (some m) l enough found leads keyed =
    elim (Bool-cases (mem_text m.message_id (map stored_key l))) [
      | inl met ↦ rw met (record {
        next = some m;
        leads = leads;
        distinct = keyed;
        stops = inr (m, refl, sym (mem_text-map m.message_id l) ∙ met);
      })
      | inr new ↦ rw new (
          walk-IsLineage all start fuel (parent_of all m) (m ∷ l)
            (omega (arith, unseen-cons_lt all m.message_id (map stored_key l) (found m refl) new))
            (λ p h. parent_of-has all m p h) (refl, leads)
            (sym (mem_text-map m.message_id l) ∙ new, keyed))
    ]

-- The lineage that a fork copies is the whole way from the fork point up: each message stands after
-- its parent, the fork point, if the conversation has it, stands last, no message stands twice, and
-- the way ends only where a message has no parent in the conversation or a cycle closes.
pub lineage_of-IsLineage :
    (all : List StoredMessage) (from : String)
    → IsLineage all (find stored_key from all) (lineage_of all from)
unfolding lineage_of
lineage_of-IsLineage all from =
    walk-IsLineage all (find stored_key from all) (suc (length all)) (find stored_key from all) []
      (omega (arith, unseen_all all)) (λ m h. find-has from all m h) refl tt
