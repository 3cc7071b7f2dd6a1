-- ===== src/Tests/Prompt.antt =====
-- The injections into a prompt at a concrete store.
use caladon.Prelude.{
  ◌≡◌, refl, String, ◌==◌, true, false, Option, none, some, [], ◌∷◌, if◌then◌else◌,
}
use caladon.Sdk.Text.{codes}
use caladon.Store.Tables.{Tables, empty_tables}
use caladon.Store.Action.{Env, World}
use caladon.Prompt.Inject.{
  Page, inject_memories_into_prompt, inject_active_skill_into_prompt, inject_artifacts_into_prompt,
}
use caladon.Prompt.Inject.Laws.{IsInjected, EndsWith, inject-IsInjected}

abbrev env : Env
env = record {
  fault = λ n. false;
  time = λ n. n;
  fresh_id = λ n. "fresh";
  parse_json = λ s. none;
  stringify = λ j. "{}";
  text_le = λ a b. true;
}

abbrev tables : Tables
tables = record empty_tables {
  memories = record { key = "pet"; value = "cat"; token_count = 1; updated_at = 1 } ∷ [];
  skills =
      record {
        skill_id = "s";
        name = "short";
        description = none;
        body = " Be brief. ";
        created_at = 1;
        updated_at = 1;
      }
      ∷ [];
}

abbrev world : World
world = record { tables = tables; tick = 0 }

abbrev item : String → Option (Option String)
item k = if k == "caladon:activeSkillId" then some (some "s") else some none

abbrev page : Page
page = record { item = item; units = codes; is_open = true }

skill_first :
    (inject_active_skill_into_prompt env page (codes "Hi") world).0 ≡ codes "Be brief.\n\nHi"
unfolding inject_active_skill_into_prompt
skill_first = refl

inject-IsInjected_example :
    IsInjected env page (codes "Hi") world (inject_memories_into_prompt env page (codes "Hi") world)
    × IsInjected env page
        (codes "Hi")
        world
        (inject_active_skill_into_prompt env page (codes "Hi") world)
    × EndsWith (codes "Hi") (inject_artifacts_into_prompt page (codes "Hi") (some (codes "on")))
inject-IsInjected_example = inject-IsInjected env page (codes "Hi") world (some (codes "on"))
