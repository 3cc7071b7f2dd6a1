-- ===== src/Prompt/Inject.antt =====
-- memory/inject.ts, skills/inject.ts and artifacts/inject.ts: the blocks before the prompt. What is
-- read from the store is read by the worker's statements.
pub mod Laws
use caladon.Prelude.{
  String, ◌==◌, Bool, true, false, not, ◌&&◌, ◌||◌, Option, none, some, if◌then◌else◌, List, [],
  ◌∷◌, ◌++◌,
}
use caladon.Sdk.Text.{Text, codes, trim}
use caladon.Store.Rows.{StoredMemory, StoredSkill}
use caladon.Store.Action.{Env, World, Outcome, ok, throw}
use caladon.Store.Records.{list_memories, get_skill}

-- The page: localStorage.getItem, where `none` is a throw; the code units of a text of the store; and
-- whether the proxy of the store is open.
pub record Page : Type 0 where
  pub item : String → Option (Option String)
  pub units : String → Text
  pub is_open : Bool

-- `v` unless the item is it; on where nothing is stored or the storage throws
abbrev pub is_not : String → Option (Option String) → Bool
is_not v (some (some w)) = not (w == v)
is_not v _ = true

abbrev pub memory_enabled : Page → Bool
memory_enabled p = is_not "0" (p.item "caladon:memoryEnabled")

abbrev pub memory_line : Page → StoredMemory → Text
memory_line p m = codes "- " ++ p.units m.key ++ codes ": " ++ p.units m.value

-- memories.map(…).join('\n')
unfoldable pub memory_lines : Page → List StoredMemory → Text
memory_lines p [] = []
memory_lines p (m ∷ []) = memory_line p m
memory_lines p (m ∷ n ∷ ms) = memory_line p m ++ 10 ∷ memory_lines p (n ∷ ms)

unfoldable pub memory_block : Page → List StoredMemory → Text
unfolding memory_lines
memory_block p ms =
    codes "The following are persistent facts the user has asked you to remember about them. "
    ++ codes "Use them when relevant; do not mention this block explicitly.\n<memory>\n"
    ++ memory_lines p ms
    ++ codes "\n</memory>\n\n"

-- What is sent for an outcome of listMemories; the catch sends the prompt alone.
unfoldable pub remembered : Page → Text → Outcome (List StoredMemory) → Text
unfolding memory_block
remembered p prompt (throw e) = prompt
remembered p prompt (ok []) = prompt
remembered p prompt (ok (m ∷ ms)) = memory_block p (m ∷ ms) ++ prompt

-- injectMemoriesIntoPrompt(promptText)
unfoldable pub inject_memories_into_prompt : Env → Page → Text → World → Text × World
unfolding remembered list_memories
inject_memories_into_prompt env p prompt w =
    if memory_enabled p && p.is_open
    then (let (o, w') = list_memories env w in (remembered p prompt o, w'))
    else (prompt, w)

-- activeSkillId(); the empty text is no id
abbrev pub active_skill_id : Page → Option String
active_skill_id p = elim (p.item "caladon:activeSkillId") [
  | some (some id) ↦ if id == "" then none else some id
  | _ ↦ none
]

-- `body.trim()`, unless it is empty, before the prompt
abbrev pub with_body : Text → Text → Text
with_body [] prompt = prompt
with_body (c ∷ t) prompt = (c ∷ t) ++ codes "\n\n" ++ prompt

unfoldable pub instructed : Page → Text → Outcome (Option StoredSkill) → Text
unfolding trim
instructed p prompt (ok (some skill)) = with_body (trim (p.units skill.body)) prompt
instructed p prompt _ = prompt

unfoldable pub with_skill : Env → Page → Text → Option String → World → Text × World
unfolding instructed get_skill
with_skill env p prompt none w = (prompt, w)
with_skill env p prompt (some id) w =
    if p.is_open
    then (let (o, w') = get_skill env id w in (instructed p prompt o, w'))
    else (prompt, w)

-- injectActiveSkillIntoPrompt(promptText)
unfoldable pub inject_active_skill_into_prompt : Env → Page → Text → World → Text × World
unfolding with_skill
inject_active_skill_into_prompt env p prompt w = with_skill env p prompt (active_skill_id p) w

abbrev pub artifact_instructions : Text
artifact_instructions =
    codes "# Artifacts\n"
    ++ codes "\n"
    ++ codes
        "When the user asks for substantial, self-contained, reusable content (a web page, a diagram, a\n"
    ++ codes
        "drawing, a document), output it as an \"artifact\" so it renders in a side panel. Use this exact\n"
    ++ codes "format — the triple backticks are required:\n"
    ++ codes "\n"
    ++ codes
        ":::artifact{identifier=\"kebab-case-id\" type=\"<mime-type>\" title=\"Short Title\"}\n"
    ++ codes "```\n"
    ++ codes "<the complete content>\n"
    ++ codes "```\n"
    ++ codes ":::\n"
    ++ codes "\n"
    ++ codes
        "Reuse the same identifier when updating an existing artifact. Supported types (use ONLY these):\n"
    ++ codes "\n"
    ++ codes
        "- \"text/html\" — a single self-contained HTML page. Put ALL CSS and JS inline in the one file. It\n"
    ++ codes
        "  runs in a locked-down sandbox with NO network access: do NOT reference external scripts,\n"
    ++ codes
        "  stylesheets, fonts, or images (no CDNs, no <img src=\"http...\">). Inline SVG and data: URIs are fine.\n"
    ++ codes
        "- \"application/vnd.mermaid\" — a Mermaid diagram (flowcharts, sequence, etc.). Content is Mermaid syntax.\n"
    ++ codes "- \"image/svg+xml\" — a self-contained SVG document.\n"
    ++ codes "- \"text/markdown\" — a Markdown document.\n"
    ++ codes "\n"
    ++ codes
        "Do NOT use React/JSX artifacts — they are not supported here; build interactive content as a single\n"
    ++ codes
        "\"text/html\" artifact with inline JavaScript instead. Provide complete content with no placeholders or\n"
    ++ codes
        "\"rest of code unchanged\" comments. For short snippets or one-off answers, reply normally instead of\n"
    ++ codes "using an artifact."

abbrev pub is_blank : Text → Bool
is_blank [] = true
is_blank (c ∷ t) = false

-- mode.trim() !== '', of a conversation that has a mode
unfoldable pub is_mode : Option Text → Bool
unfolding trim
is_mode none = false
is_mode (some mode) = not (is_blank (trim mode))

-- injectArtifactsIntoPrompt(promptText, mode)
unfoldable pub inject_artifacts_into_prompt : Page → Text → Option Text → Text
unfolding is_mode
inject_artifacts_into_prompt p prompt mode =
    if is_mode mode || is_not "false" (p.item "caladon:artifactsEnabled")
    then artifact_instructions ++ codes "\n\n" ++ prompt
    else prompt
