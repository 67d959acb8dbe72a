-- ===== src/Contracts/Secrets.antt =====
-- The two tests for a sensitive name, and what redaction leaves.
use Prim.Native.Char.{code}
use comfyui_runpod_agentic_n.Base.{
  ℕ, ◌+◌, ◌≤◌, ltb, String, ◌≡◌, refl, ap, Bool, true, ◌||◌, ◌&&◌, List, [], ◌∷◌, ◌++◌, map, arith,
  if◌then◌else◌, ◌=ℕ=◌, none, some, eq_iff,
}
use comfyui_runpod_agentic_n.Base.Dict.{Dict, get}
use comfyui_runpod_agentic_n.Base.Sort.{All}
use comfyui_runpod_agentic_n.Base.Text.{
  codes, lower, upper, lower_code, upper_code, is_prefix, is_infix,
}
use comfyui_runpod_agentic_n.Contracts.{matches_secret, redact_env, fold, fold_code}

-- `str.upper` of a character, so far as it makes letters of the tokens: the sharp s, the long s and a few
-- others become them, and a Kelvin sign does not.
abbrev pub upper_codes : ℕ → List ℕ
upper_codes c =
    if ltb c 128
    then upper_code c ∷ []
    else if c =ℕ= 223
    then codes "SS"
    else if c =ℕ= 383
    then codes "S"
    else if c =ℕ= 329
    then 700 ∷ codes "N"
    else if c =ℕ= 7831
    then b'T' ∷ 776 ∷ []
    else if c =ℕ= 7832
    then b'W' ∷ 778 ∷ []
    else if c =ℕ= 7833
    then b'Y' ∷ 778 ∷ []
    else if c =ℕ= 7834
    then b'A' ∷ 702 ∷ []
    else if c =ℕ= 64261 || c =ℕ= 64262
    then codes "ST"
    else c ∷ []

unfoldable pub upper_text : String → List ℕ
upper_text String.[] = []
upper_text (String.◌∷◌ c s) = upper_codes (code c) ++ upper_text s

-- `is_sensitive_key` of runner.py
unfoldable pub is_sensitive_key : String → Bool
unfolding upper_text is_infix
is_sensitive_key key =
    is_infix (codes "KEY") (upper_text key)
    || (is_infix (codes "TOKEN") (upper_text key)
        || (is_infix (codes "SECRET") (upper_text key)
            || is_infix (codes "PASSWORD") (upper_text key)))

-- `str.isascii`
unfoldable pub is_ascii : String → Bool
is_ascii String.[] = true
is_ascii (String.◌∷◌ c s) = ltb (code c) 128 && is_ascii s

upper_text-is_ascii : (s : String) → is_ascii s ≡ true → upper_text s ≡ upper s
unfolding upper_text upper is_ascii
upper_text-is_ascii String.[] h = refl
upper_text-is_ascii (String.◌∷◌ c s) h =
    let below : ltb (code c) 128 ≡ true = ground arith in
    rw below (ap (λ t. upper_code (code c) ∷ t) (upper_text-is_ascii s (ground arith)))

fold-is_ascii : (s : String) → is_ascii s ≡ true → fold s ≡ lower s
unfolding fold lower is_ascii
fold-is_ascii String.[] h = refl
fold-is_ascii (String.◌∷◌ c s) h =
    let first : fold_code (code c) ≡ lower_code (code c) = ground arith in
    rw (first, fold-is_ascii s (ground arith)) refl

abbrev IsUpper : ℕ → Type 0
IsUpper c = (b'A' ≤ c) × (c ≤ b'Z')

case_test : (t c : ℕ) → IsUpper t → (t =ℕ= upper_code c) ≡ ((t + 32) =ℕ= lower_code c)
case_test t c u = ground arith

is_prefix_case :
    (ts : List ℕ) (s : String)
    → All IsUpper ts
    → is_prefix ts (upper s) ≡ is_prefix (map (λ t. t + 32) ts) (lower s)
unfolding is_prefix upper lower
is_prefix_case [] s a = refl
is_prefix_case (t ∷ ts) String.[] a = refl
is_prefix_case (t ∷ ts) (String.◌∷◌ c s) a =
    rw (case_test t (code c) a.0, is_prefix_case ts s a.1) refl

is_infix_case :
    (t : ℕ) (ts : List ℕ) (s : String)
    → All IsUpper (t ∷ ts)
    → is_infix (t ∷ ts) (upper s) ≡ is_infix (map (λ t. t + 32) (t ∷ ts)) (lower s)
unfolding is_infix upper lower
is_infix_case t ts String.[] a = refl
is_infix_case t ts (String.◌∷◌ c s) a =
    rw (is_infix_case t ts s a) (rw (is_prefix_case (t ∷ ts) (String.◌∷◌ c s) a) refl)

-- On a name of ASCII characters, as variables of an environment have them, the test by which the runner
-- redacts a pod input and the pattern by which contracts are redacted agree.
pub is_sensitive_key-eq-matches_secret :
    (key : String) → is_ascii key ≡ true → is_sensitive_key key ≡ matches_secret key
unfolding is_sensitive_key matches_secret
is_sensitive_key-eq-matches_secret key h =
    rw
      (
        upper_text-is_ascii key h,
        fold-is_ascii key h,
        is_infix_case b'K' (codes "EY") key (omega arith),
        is_infix_case b'T' (codes "OKEN") key (omega arith),
        is_infix_case b'S' (codes "ECRET") key (omega arith),
        is_infix_case b'P' (codes "ASSWORD") key (omega arith),
      )
      refl

-- Redaction keeps every key, hides the value of each sensitive one, and leaves the others.
pub get-redact_env :
    (values : Dict String) (k : String)
    → get (redact_env values) k ≡ (
        if matches_secret k
        then elim (get values k) [ none ↦ none | some v ↦ some "<redacted>" ]
        else get values k)
unfolding redact_env get
get-redact_env [] k = ground arith
get-redact_env ((j, v) ∷ values) k = ground (arith, eq_iff j k, get-redact_env values k)
