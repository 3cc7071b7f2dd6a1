-- ===== src/Shim/Boot.antt =====
-- web-client/shim/src/server.ts: the static answers to the boot queries of the user interface.
use caladon.Prelude.{true, false, String, List, [], ◌∷◌}
use caladon.Store.Action.{Json, Fields, null, bool, num, str, arr, obj, nil, end, field}

-- An object literal, from its properties in order.
abbrev pub fields_of : List (String × Json) → Fields
fields_of [] = end
fields_of ((k, v) ∷ rest) = field k v (fields_of rest)

abbrev pub object : List (String × Json) → Json
object ps = obj (fields_of ps)

-- GET /api/config
unfoldable pub startup_config : Json
startup_config = object (
    ("appTitle", str "Caladon")
    ∷ ("registrationEnabled", bool false)
    ∷ ("emailLoginEnabled", bool false)
    ∷ ("socialLoginEnabled", bool false)
    ∷ ("socialLogins", arr nil)
    ∷ ("passwordResetEnabled", bool false)
    ∷ ("emailEnabled", bool false)
    ∷ ("discordLoginEnabled", bool false)
    ∷ ("facebookLoginEnabled", bool false)
    ∷ ("githubLoginEnabled", bool false)
    ∷ ("googleLoginEnabled", bool false)
    ∷ ("openidLoginEnabled", bool false)
    ∷ ("appleLoginEnabled", bool false)
    ∷ ("samlLoginEnabled", bool false)
    ∷ ("openidLabel", str "")
    ∷ ("openidImageUrl", str "")
    ∷ ("openidAutoRedirect", bool false)
    ∷ ("samlLabel", str "")
    ∷ ("samlImageUrl", str "")
    ∷ ("serverDomain", str "")
    ∷ ("showBirthdayIcon", bool false)
    ∷ ("helpAndFaqURL", str "")
    ∷ ("balance", obj (field "enabled" (bool false) (end)))
    ∷ ("sharedLinksEnabled", bool false)
    ∷ ("publicSharedLinksEnabled", bool false)
    ∷ ("allowAccountDeletion", bool false)
    ∷ (
      "interface",
      obj (
          field "temporaryChat" (bool true)
            (field "autoSubmitFromUrl" (bool true) (field "modelSelect" (bool true) (end)))),
    )
    ∷ [])

-- The permissions of GET /api/roles/:role
unfoldable pub permissions : Json
permissions = object (
    (
      "PROMPTS",
      obj (
          field "USE" (bool false) (
            field "CREATE" (bool false)
              (field "SHARE" (bool false) (field "SHARE_PUBLIC" (bool false) (end))))),
    )
    ∷ ("BOOKMARKS", obj (field "USE" (bool false) (end)))
    ∷ (
      "MEMORIES",
      obj (
          field "USE" (bool true) (
            field "CREATE" (bool true) (
              field "UPDATE" (bool true)
                (field "READ" (bool true) (field "OPT_OUT" (bool true) (end)))))),
    )
    ∷ (
      "AGENTS",
      obj (
          field "USE" (bool true) (
            field "CREATE" (bool true)
              (field "SHARE" (bool false) (field "SHARE_PUBLIC" (bool false) (end))))),
    )
    ∷ ("MULTI_CONVO", obj (field "USE" (bool false) (end)))
    ∷ ("TEMPORARY_CHAT", obj (field "USE" (bool true) (end)))
    ∷ ("RUN_CODE", obj (field "USE" (bool false) (end)))
    ∷ ("WEB_SEARCH", obj (field "USE" (bool false) (end)))
    ∷ (
      "PEOPLE_PICKER",
      obj (
          field "VIEW_USERS" (bool false)
            (field "VIEW_GROUPS" (bool false) (field "VIEW_ROLES" (bool false) (end)))),
    )
    ∷ ("MARKETPLACE", obj (field "USE" (bool false) (end)))
    ∷ ("FILE_SEARCH", obj (field "USE" (bool false) (end)))
    ∷ ("FILE_CITATIONS", obj (field "USE" (bool false) (end)))
    ∷ (
      "MCP_SERVERS",
      obj (
          field "USE" (bool false) (
            field "CREATE" (bool false) (
              field "SHARE" (bool false)
                (field "SHARE_PUBLIC" (bool false) (field "CONFIGURE_OBO" (bool false) (end)))))),
    )
    ∷ (
      "REMOTE_AGENTS",
      obj (
          field "USE" (bool false) (
            field "CREATE" (bool false)
              (field "SHARE" (bool false) (field "SHARE_PUBLIC" (bool false) (end))))),
    )
    ∷ (
      "SKILLS",
      obj (
          field "USE" (bool false) (
            field "CREATE" (bool false)
              (field "SHARE" (bool false) (field "SHARE_PUBLIC" (bool false) (end))))),
    )
    ∷ (
      "SHARED_LINKS",
      obj (
          field "USE" (bool false) (
            field "CREATE" (bool false)
              (field "SHARE" (bool false) (field "SHARE_PUBLIC" (bool false) (end))))),
    )
    ∷ [])

unfoldable pub role : String → Json
unfolding permissions
role name = object (("name", str name) ∷ ("permissions", permissions) ∷ [])

abbrev pub caladon_endpoint : String
caladon_endpoint = "caladon"

abbrev pub caladon_models : List String
caladon_models = "caladon" ∷ []

-- GET /api/endpoints
unfoldable pub endpoints : Json
endpoints = object (
    (
      caladon_endpoint,
      object (
          ("type", str "custom")
          ∷ ("order", num 0)
          ∷ ("modelDisplayLabel", str "Caladon")
          ∷ ("userProvide", bool false)
          ∷ []),
    )
    ∷ ("agents", object (("order", num 1) ∷ ("modelDisplayLabel", str "Caladon Agent") ∷ []))
    ∷ [])

-- GET /api/convos and GET /api/projects
abbrev pub no_conversations : Json
no_conversations = object (("conversations", arr nil) ∷ ("nextCursor", null) ∷ [])

abbrev pub no_projects : Json
no_projects = object (("projects", arr nil) ∷ ("nextCursor", null) ∷ [])

-- GET /api/agents/chat/active
abbrev pub no_active_jobs : Json
no_active_jobs = object (("activeJobIds", arr nil) ∷ [])

-- GET /api/agents/marketplace
abbrev pub empty_marketplace : Json
empty_marketplace = object (
    ("object", str "list")
    ∷ ("data", arr nil)
    ∷ ("has_more", bool false)
    ∷ ("first_id", null)
    ∷ ("last_id", null)
    ∷ [])

-- GET /api/user
abbrev pub unauthenticated : Json
unauthenticated = object (("message", str "unauthenticated") ∷ [])
