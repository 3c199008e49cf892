-- ===== src/Tests/Config.antt =====
-- The theorems on the configuration at an environment of a deployment, and runs of Load.
use crypticquest_backend.Base.{
  ◌≡◌, refl, ◌==◌, string_key, true, false, none, some, [], ◌∷◌, map, All, if◌then◌else◌,
}
use crypticquest_backend.Text.{is_space, lower_rune}
use crypticquest_backend.Text.Parts.{trim_left, trim_right, trim_space, split_on}
use crypticquest_backend.Http.{set, clear}
use crypticquest_backend.Config.{
  Env, load, get_env, get_env_list, get_env_bool, kept_parts, list_or, parse_bool, parse_same_site,
  new_session_cookie, http_cookie, none_mode, lax_mode,
}
use crypticquest_backend.Config.Origins.{
  Entry, IsEntry, text, join, named, default_origins, allowed_origins-join,
}

-- Two origins, with a space behind the first comma and an empty entry at the end.
abbrev app : Entry
app = record { left = ""; origin = "https://a.example"; right = "" }

abbrev site : Entry
site = record { left = " "; origin = "https://b.example"; right = "" }

abbrev blank : Entry
blank = record { left = ""; origin = ""; right = " " }

abbrev env : Env
env name =
    if name == "ALLOWED_ORIGIN"
    then some (join (map text (app ∷ site ∷ blank ∷ [])))
    else if name == "COOKIE_SECURE"
    then some "yes"
    else if name == "COOKIE_SAMESITE"
    then some "NONE"
    else none

-- "yes" is no boolean, and "NONE" is the mode None.
load_runs :
    (env "ALLOWED_ORIGIN" ≡ some "https://a.example, https://b.example, ")
    × ((load env).allowed_origins ≡ "https://a.example" ∷ "https://b.example" ∷ [])
    × ((load env).cookie_secure ≡ false)
    × ((load env).port ≡ "8080")
    × (parse_bool "True" ≡ some true)
    × (parse_same_site (λ c. c) (load env).cookie_same_site ≡ none_mode)
unfolding load get_env get_env_list get_env_bool kept_parts trim_space trim_left trim_right split_on
    list_or is_space parse_bool parse_same_site lower_rune
load_runs = (refl, refl, refl, refl, refl, refl)

-- What clears the cookie names the one that was set.
cookie_runs :
    let c = http_cookie (new_session_cookie (λ x. x) "" true "Lax") (set "t" 5) in
    let d = http_cookie (new_session_cookie (λ x. x) "" true "Lax") clear in
    (d.name ≡ c.name)
    × (d.path ≡ c.path)
    × (d.domain ≡ c.domain)
    × (d.deletes ≡ true)
    × (c.http_only ≡ true)
    × (c.same_site ≡ lax_mode)
unfolding http_cookie new_session_cookie parse_same_site lower_rune
cookie_runs = (refl, refl, refl, refl, refl, refl)

entries-IsEntry : All IsEntry (app ∷ site ∷ blank ∷ [])
unfolding is_space
entries-IsEntry = (
  record { left = refl; right = refl; trimmed = (refl, refl); one = refl },
  (
    record { left = refl; right = refl; trimmed = (refl, refl); one = refl },
    (record { left = refl; right = refl; trimmed = (refl, refl); one = refl }, tt),
  ),
)

allowed_origins-join_example :
    (load env).allowed_origins ≡ list_or (named (app ∷ site ∷ blank ∷ [])) default_origins
allowed_origins-join_example = allowed_origins-join env app (site ∷ blank ∷ []) entries-IsEntry refl
