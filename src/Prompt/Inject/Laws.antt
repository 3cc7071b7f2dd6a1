-- ===== src/Prompt/Inject/Laws.antt =====
-- memory/inject.ts, skills/inject.ts and artifacts/inject.ts: the prompt is kept.
use caladon.Prelude.{
  ◌≡◌, refl, ap, ◌∙◌, arith, String, Bool, true, false, ◌&&◌, ◌||◌, Bool-cases, inl, inr, Option,
  none, some, List, [], ◌∷◌, ◌++◌, if◌then◌else◌,
}
use caladon.Sdk.Text.{Text, codes, trim}
use caladon.Store.Rows.{StoredMemory, StoredSkill}
use caladon.Store.Action.{Env, World, Outcome, ok, throw, query, engine}
use caladon.Store.Tables.{Tables, skill_key}
use caladon.Table.{order_by, find}
use caladon.Store.Records.{list_memories, get_skill, memory_desc}
use caladon.Prompt.Inject.{
  Page, memory_enabled, memory_block, remembered, inject_memories_into_prompt, active_skill_id,
  with_body, instructed, with_skill, inject_active_skill_into_prompt, inject_artifacts_into_prompt,
  is_mode, is_not, artifact_instructions,
}

-- the prompt stands whole at the end of a text
pub record EndsWith (prompt t : Text) : Type 0 where
  pub block : Text
  pub split : t ≡ block ++ prompt

whole : (prompt : Text) → EndsWith prompt prompt
whole prompt = record { block = []; split = refl }

module _ (p : Page) (prompt : Text) where
  remembered-EndsWith : (o : Outcome (List StoredMemory)) → EndsWith prompt (remembered p prompt o)
  unfolding remembered
  remembered-EndsWith (throw e) = whole prompt
  remembered-EndsWith (ok []) = whole prompt
  remembered-EndsWith (ok (m ∷ ms)) = record { block = memory_block p (m ∷ ms); split = refl }

  with_body-EndsWith : (body : Text) → EndsWith prompt (with_body body prompt)
  with_body-EndsWith [] = whole prompt
  with_body-EndsWith (c ∷ t) = record { block = (c ∷ t) ++ codes "\n\n"; split = refl }

  instructed-EndsWith : (o : Outcome (Option StoredSkill)) → EndsWith prompt (instructed p prompt o)
  unfolding instructed
  instructed-EndsWith (throw e) = whole prompt
  instructed-EndsWith (ok none) = whole prompt
  instructed-EndsWith (ok (some s)) = with_body-EndsWith (trim (p.units s.body))

-- What an injection from the store does: the prompt stands whole at its end and the tables are as they
-- were; and it is sent as it is where the store is not open, which no statement is run for then, or
-- where the statement that reads the store fails.
pub record IsInjected (env : Env) (p : Page) (prompt : Text) (w : World) (r : Text × World)
    : Type 0 where
  pub kept : EndsWith prompt r.0
  pub tables : r.1.tables ≡ w.tables
  pub closed : p.is_open ≡ false → r ≡ (prompt, w)
  pub failed : env.fault w.tick ≡ true → r.0 ≡ prompt

module _ (env : Env) (p : Page) (prompt : Text) (w : World) where
  untouched : IsInjected env p prompt w (prompt, w)
  untouched = record { kept = whole prompt; tables = refl; closed = λ h. refl; failed = λ h. refl }

  tables-query : {A : Type 0} (select : Tables → A) → (query env select w).1.tables ≡ w.tables
  unfolding query
  tables-query select = elim (Bool-cases (env.fault w.tick)) [
    | inl faulty ↦ rw faulty refl
    | inr fine ↦ rw fine refl
  ]

  query_fails :
      {A : Type 0} (select : Tables → A)
      → env.fault w.tick ≡ true
      → (query env select w).0 ≡ throw engine
  unfolding query
  query_fails select h = rw h refl

  -- a query that is run if a test passes, and what is sent for its outcome
  query-IsInjected :
      {A : Type 0} (select : Tables → A) (send : Outcome A → Text) (test : Bool)
      → ((o : Outcome A) → EndsWith prompt (send o))
      → send (throw engine) ≡ prompt
      → (p.is_open ≡ false → test ≡ false)
      → IsInjected env p prompt w
          (if test then (let (o, w') = query env select w in (send o, w')) else (prompt, w))
  query-IsInjected select send false ends thrown shut = untouched
  query-IsInjected select send true ends thrown shut = record {
    kept = ends (query env select w).0;
    tables = tables-query select;
    closed = λ c. absurd (ground (arith, shut c));
    failed = λ h. ap send (query_fails select h) ∙ thrown;
  }

  memories-IsInjected : IsInjected env p prompt w (inject_memories_into_prompt env p prompt w)
  unfolding inject_memories_into_prompt list_memories remembered
  memories-IsInjected =
      query-IsInjected (λ t. order_by memory_desc t.memories) (remembered p prompt)
        (memory_enabled p && p.is_open) (remembered-EndsWith p prompt) refl (λ c. ground (arith, c))

  with_skill-IsInjected :
      (id : Option String) → IsInjected env p prompt w (with_skill env p prompt id w)
  unfolding with_skill get_skill instructed
  with_skill-IsInjected none = untouched
  with_skill-IsInjected (some id) =
      query-IsInjected (λ t. find skill_key id t.skills) (instructed p prompt) p.is_open
        (instructed-EndsWith p prompt) refl (λ c. c)

  artifacts-EndsWith :
      (mode : Option Text) → EndsWith prompt (inject_artifacts_into_prompt p prompt mode)
  unfolding inject_artifacts_into_prompt
  artifacts-EndsWith mode =
      elim (Bool-cases (is_mode mode || is_not "false" (p.item "caladon:artifactsEnabled"))) [
        | inl on ↦ rw on (record { block = artifact_instructions ++ codes "\n\n"; split = refl })
        | inr off ↦ rw off (whole prompt)
      ]

  -- Whatever the settings and the store, the injections of memories and of the active skill send the
  -- prompt whole at the end of the text and leave the tables as they were; they send it alone, and run
  -- no statement, where the store is not open, and send it alone where reading the store fails. The
  -- artifact instructions are put before it whole too.
  pub inject-IsInjected :
      (mode : Option Text)
      → IsInjected env p prompt w (inject_memories_into_prompt env p prompt w)
        × IsInjected env p prompt w (inject_active_skill_into_prompt env p prompt w)
        × EndsWith prompt (inject_artifacts_into_prompt p prompt mode)
  unfolding inject_active_skill_into_prompt
  inject-IsInjected mode =
      (memories-IsInjected, with_skill-IsInjected (active_skill_id p), artifacts-EndsWith mode)
