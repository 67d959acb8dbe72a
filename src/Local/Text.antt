-- ===== src/Local/Text.antt =====
-- local_runtime.py: names of services, quoting for the shell, and the placeholders that a local runtime
-- resolves.
pub mod Names
use Prim.Native.Char.{code}
use comfyui_runpod_agentic_n.Base.{
  ℕ, String, ◌<>◌, Bool, true, false, ◌&&◌, ◌||◌, Option, none, some, List, [], ◌∷◌, if◌then◌else◌,
  ◌=ℕ=◌, leb, is_empty, starts_with, value_or, not,
}
use comfyui_runpod_agentic_n.Base.Dict.{Dict, get}
use comfyui_runpod_agentic_n.Base.Text.{codes, is_infix, strip, replace_all, decimal, remove_prefix}
use comfyui_runpod_agentic_n.Base.Characters.{is_alnum, lower_text, strip_char, dashed}
use comfyui_runpod_agentic_n.Runner.Shell.{shell_env}

-- `[a-z0-9_-]` and `[a-zA-Z0-9_.-]`
abbrev pub is_service_char : ℕ → Bool
is_service_char c =
    (leb b'a' c && leb c b'z') || ((leb b'0' c && leb c b'9') || (c =ℕ= b'_' || c =ℕ= b'-'))

abbrev pub is_file_char : ℕ → Bool
is_file_char c = is_alnum c || (c =ℕ= b'_' || (c =ℕ= b'.' || c =ℕ= b'-'))

-- `text or default`
abbrev pub or_default : String → String → String
or_default text default = if is_empty text then default else text

-- `compose_service_name_from_text`
unfoldable pub compose_service_name_from_text : String → String
unfolding lower_text dashed strip_char
compose_service_name_from_text value =
    or_default (strip_char b'-' (dashed is_service_char false (lower_text value))) "service"

-- `safe_project` of the local runtime's directory, of its process id file and of the copied files.
unfoldable pub safe_project : String → String
unfolding dashed strip_char
safe_project project_name =
    or_default (strip_char b'-' (dashed is_file_char false project_name)) "crag-local"

-- `shlex.quote`
abbrev is_shell_safe : ℕ → Bool
is_shell_safe c =
    is_alnum c
    || (c =ℕ= b'_'
        || (c =ℕ= b'@'
            || (c =ℕ= b'%'
                || (c =ℕ= b'+'
                    || (c =ℕ= b'='
                        || (c =ℕ= b':'
                            || (c =ℕ= b',' || (c =ℕ= b'.' || (c =ℕ= b'/' || c =ℕ= b'-')))))))))

all_safe : String → Bool
all_safe String.[] = true
all_safe (String.◌∷◌ c s) = is_shell_safe (code c) && all_safe s

unfoldable pub shlex_quote : String → String
unfolding all_safe shell_env
shlex_quote value = if not (is_empty value) && all_safe value then value else shell_env value

-- `shlex.join`
unfoldable pub shlex_join : List String → String
unfolding shlex_quote
shlex_join [] = ""
shlex_join (word ∷ []) = shlex_quote word
shlex_join (word ∷ next ∷ rest) = shlex_quote word <> (" " <> shlex_join (next ∷ rest))

-- `first_service_for_role`
unfoldable pub first_service_for_role : Dict String → String → Option String
unfolding is_infix
first_service_for_role [] role = none
first_service_for_role ((name, service) ∷ rest) role =
    let others = first_service_for_role rest role in
    if is_infix (codes ("-" <> (role <> "-"))) (codes name)
      || starts_with name ("crag-" <> (role <> "-"))
    then some service
    else others

-- What stands for one placeholder: the role, the scheme, the port and the suffix.
pub record Replacement : Type 0 where
  pub placeholder : String
  pub role : String
  pub scheme : String
  pub port : ℕ
  pub suffix : String

abbrev stands : String → String → String → ℕ → String → Replacement
stands placeholder role scheme port suffix = record {
  placeholder = placeholder;
  role = role;
  scheme = scheme;
  port = port;
  suffix = suffix;
}

-- `replacements` of `resolve_crag_placeholders`
abbrev pub local_replacements : List Replacement
local_replacements =
    stands "crag://sql/postgres/hostport" "sql" "" 5432 ""
    ∷ stands "crag://sql/postgres/host" "sql" "" 0 ""
    ∷ stands "crag://sql/mysql/hostport" "sql" "" 3306 ""
    ∷ stands "crag://sql/mysql/host" "sql" "" 0 ""
    ∷ stands "crag://browser/neko" "browser" "http" 8080 ""
    ∷ stands "crag://browser/playwright" "browser" "http" 3000 ""
    ∷ stands "crag://llm/ollama/v1" "llm" "http" 11434 "/v1"
    ∷ stands "crag://llm/ollama" "llm" "http" 11434 ""
    ∷ stands "crag://llm/vllm/v1" "llm" "http" 8000 "/v1"
    ∷ stands "crag://vector/qdrant" "vector" "http" 6333 ""
    ∷ stands "crag://vector/chroma" "vector" "http" 8000 ""
    ∷ stands "crag://sql/postgres" "sql" "postgresql" 5432 ""
    ∷ stands "crag://sql/mysql" "sql" "mysql" 3306 ""
    ∷ []

unfoldable pub address : Replacement → String → String
unfolding decimal
address r service =
    if not (is_empty r.scheme)
    then (r.scheme <> ("://" <> (service <> (":" <> (decimal r.port <> r.suffix)))))
    else if not (r.port =ℕ= 0)
    then (service <> (":" <> (decimal r.port <> r.suffix)))
    else (service <> r.suffix)

-- The body of the loop.
unfoldable pub resolve_one : Dict String → Replacement → String → String
unfolding is_infix first_service_for_role replace_all address
resolve_one service_names r value =
    let service = value_or (first_service_for_role service_names r.role) "" in
    if not (is_infix (codes r.placeholder) (codes value))
    then value
    else if is_empty service
    then value
    else replace_all r.placeholder (address r service) value

resolve_each : Dict String → List Replacement → String → String
unfolding resolve_one
resolve_each service_names [] value = value
resolve_each service_names (r ∷ rest) value =
    resolve_each service_names rest (resolve_one service_names r value)

-- `resolve_crag_placeholders`
unfoldable pub resolve_crag_placeholders : String → Dict String → String
unfolding resolve_each
resolve_crag_placeholders value service_names = resolve_each service_names local_replacements value

-- `[A-Za-z_][A-Za-z0-9_]*`
abbrev is_name_start : ℕ → Bool
is_name_start c = (leb b'a' c && leb c b'z') || ((leb b'A' c && leb c b'Z') || c =ℕ= b'_')

is_name_rest : String → Bool
is_name_rest String.[] = true
is_name_rest (String.◌∷◌ c s) = (is_alnum (code c) || code c =ℕ= b'_') && is_name_rest s

is_identifier : String → Bool
unfolding is_name_rest
is_identifier String.[] = false
is_identifier (String.◌∷◌ c s) = is_name_start (code c) && is_name_rest s

-- The text without its last two characters, if these are `}}`.
before_braces : String → Option String
before_braces String.[] = none
before_braces (String.◌∷◌ c String.[]) = none
before_braces (String.◌∷◌ c (String.◌∷◌ d String.[])) =
    if code c =ℕ= b'}' && code d =ℕ= b'}' then some "" else none
before_braces (String.◌∷◌ c (String.◌∷◌ d (String.◌∷◌ e s))) =
    elim (before_braces (String.◌∷◌ d (String.◌∷◌ e s))) [
      | none ↦ none
      | some t ↦ some (String.◌∷◌ c t)
    ]

secret_in : String → Option String
unfolding strip is_identifier
secret_in inner =
    let name = remove_prefix "RUNPOD_SECRET_" (strip inner) in
    if starts_with (strip inner) "RUNPOD_SECRET_" && is_identifier name then some name else none

-- The group of `\{\{\s*RUNPOD_SECRET_([A-Za-z_][A-Za-z0-9_]*)\s*\}\}` in a full match.
unfoldable pub secret_of : String → Option String
unfolding before_braces secret_in
secret_of value =
    if starts_with value "{{"
    then elim (before_braces (remove_prefix "{{" value)) [
      | none ↦ none
      | some inner ↦ secret_in inner
    ]
    else none

-- `resolve_local_secret_placeholder`, where `secrets` is `local_secret_values()`.
unfoldable pub resolve_local_secret_placeholder : Dict String → String → String
unfolding secret_of get
resolve_local_secret_placeholder secrets value = elim (secret_of value) [
  | none ↦ value
  | some key ↦ value_or (get secrets key) value
]

-- `escape_compose_interpolation`
unfoldable pub escape_compose_interpolation : String → String
unfolding replace_all
escape_compose_interpolation value = replace_all "$" "$$" value
