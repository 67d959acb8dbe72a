-- ===== src/Base/Characters.antt =====
-- Texts character by character, on ASCII: case, replacement, the characters that are kept, and runs of
-- characters that a dash replaces.
use Prim.Native.Nat.{ℕ, zero, suc, ◌-◌}
use Prim.Native.Char.{Char, code}
use Prim.Native.String.{String, ◌++◌ as ◌<>◌}
use mathlib.Core.Bool.{Bool, true, false, ◌&&◌, ◌||◌}
use comfyui_runpod_agentic_n.Base.Tests.{if◌then◌else◌, leb, ◌=ℕ=◌, is_empty}

-- `ch.isalnum()`, on ASCII.
abbrev pub is_alnum : ℕ → Bool
is_alnum c =
    (leb b'0' c && leb c b'9') || ((leb b'a' c && leb c b'z') || (leb b'A' c && leb c b'Z'))

unfoldable pub char_from : String → ℕ → String
char_from String.[] k = ""
char_from (String.◌∷◌ c s) zero = String.◌∷◌ c String.[]
char_from (String.◌∷◌ c s) (suc k) = char_from s k

-- `ch.lower()`, on ASCII.
unfoldable pub lower_char : Char → String
unfolding char_from
lower_char c =
    if leb b'A' (code c) && leb (code c) b'Z'
    then char_from "abcdefghijklmnopqrstuvwxyz" (code c - b'A')
    else String.◌∷◌ c String.[]

-- `s.lower()`
unfoldable pub lower_text : String → String
unfolding lower_char
lower_text String.[] = ""
lower_text (String.◌∷◌ c s) = lower_char c <> lower_text s

-- `"".join(ch for ch in s if p(ch))`
unfoldable pub keep : (ℕ → Bool) → String → String
keep p String.[] = ""
keep p (String.◌∷◌ c s) = let rest = keep p s in if p (code c) then String.◌∷◌ c rest else rest

-- `s.replace(old, new)` for one character `old`.
unfoldable pub replace_char : ℕ → String → String → String
replace_char old new String.[] = ""
replace_char old new (String.◌∷◌ c s) =
    let rest = replace_char old new s in if code c =ℕ= old then new <> rest else String.◌∷◌ c rest

-- `s.lstrip(ch)`, `s.rstrip(ch)` and `s.strip(ch)` for one character.
unfoldable pub lstrip : ℕ → String → String
lstrip k String.[] = ""
lstrip k (String.◌∷◌ c s) = let rest = lstrip k s in if code c =ℕ= k then rest else String.◌∷◌ c s

unfoldable pub rstrip : ℕ → String → String
rstrip k String.[] = ""
rstrip k (String.◌∷◌ c s) =
    let rest = rstrip k s in if is_empty rest && code c =ℕ= k then "" else String.◌∷◌ c rest

unfoldable pub strip_char : ℕ → String → String
unfolding lstrip rstrip
strip_char k s = rstrip k (lstrip k s)

-- `re.sub("[^...]+", "-", s)`: each longest run of characters that fail the test becomes one dash.
unfoldable pub dashed : (ℕ → Bool) → Bool → String → String
dashed p in_run String.[] = ""
dashed p in_run (String.◌∷◌ c s) =
    let kept = String.◌∷◌ c (dashed p false s) in
    let dropped = dashed p true s in
    if p (code c) then kept else if in_run then dropped else ("-" <> dropped)
