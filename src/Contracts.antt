-- ===== src/Contracts.antt =====
-- runtime_contracts.py: contracts that the nodes contribute, merged from left to right.
pub mod Merge
pub mod Secrets
use Prim.Native.Char.{code}
use comfyui_runpod_agentic_n.Base.{
  ℕ, String, ◌<>◌, Bool, Option, none, some, List, [], ◌∷◌, ◌++◌, ◌||◌, if◌then◌else◌, ◌=ℕ=◌,
}
use comfyui_runpod_agentic_n.Base.Dict.{Dict, update}
use comfyui_runpod_agentic_n.Base.Text.{codes, lower_code, is_infix}
use comfyui_runpod_agentic_n.Specs.{
  EnvPatch, RuntimeContract, SecretRef, SecretProvider, server_env, literal_for_dev_only,
  runpod_secret,
}

abbrev pub empty_contract : RuntimeContract
empty_contract = record {
  env = record { values = []; secrets = [] };
  ports = [];
  files = [];
  commands = [];
}

-- The body of the loop of `merge_contracts`.
unfoldable pub merge_into : RuntimeContract → Option RuntimeContract → RuntimeContract
unfolding update
merge_into acc none = acc
merge_into acc (some c) = record {
  env = record {
    values = update acc.env.values c.env.values;
    secrets = acc.env.secrets ++ c.env.secrets;
  };
  ports = acc.ports ++ c.ports;
  files = update acc.files c.files;
  commands = acc.commands ++ c.commands;
}

unfoldable pub merge_from : RuntimeContract → List (Option RuntimeContract) → RuntimeContract
merge_from acc [] = acc
merge_from acc (c ∷ cs) = merge_from (merge_into acc c) cs

unfoldable pub merge_contracts : List (Option RuntimeContract) → RuntimeContract
unfolding merge_from
merge_contracts contracts = merge_from empty_contract contracts

unfoldable pub with_env : RuntimeContract → Dict String → RuntimeContract
unfolding update
with_env c values = record c { env = record (c.env) { values = update c.env.values values } }

-- What a pattern that ignores case makes of a character: it takes the Kelvin sign for a `k` and the long s
-- for an `s`.
abbrev pub fold_code : ℕ → ℕ
fold_code c = if c =ℕ= 8490 then b'k' else if c =ℕ= 383 then b's' else lower_code c

unfoldable pub fold : String → List ℕ
fold String.[] = []
fold (String.◌∷◌ c s) = fold_code (code c) ∷ fold s

-- `SECRET_PATTERN.search(key)`, which ignores case.
unfoldable pub matches_secret : String → Bool
unfolding fold is_infix
matches_secret key =
    is_infix (codes "key") (fold key)
    || (is_infix (codes "token") (fold key)
        || (is_infix (codes "secret") (fold key) || is_infix (codes "password") (fold key)))

unfoldable pub redact_env : Dict String → Dict String
unfolding matches_secret
redact_env [] = []
redact_env ((key, value) ∷ values) =
    (key, if matches_secret key then "<redacted>" else value) ∷ redact_env values

placeholder_for : SecretProvider → String → String
placeholder_for server_env name = "${" <> (name <> "}")
placeholder_for literal_for_dev_only name = "<literal-dev-secret-redacted>"
placeholder_for runpod_secret name = "{{ RUNPOD_SECRET_" <> (name <> " }}")

unfoldable pub secret_placeholder : SecretRef → String
unfolding placeholder_for
secret_placeholder secret = placeholder_for secret.provider secret.name
