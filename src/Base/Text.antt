-- ===== src/Base/Text.antt =====
-- Texts by characters: prefixes, trimming, splitting, ASCII case, and substrings.
use Prim.Native.Nat.{ℕ, ◌+◌, ◌-◌, ◌/◌, ◌%◌}
use mathlib.Core.Path.{◌≡◌, refl}
use Prim.Native.Char.{code}
use Prim.Native.String.{◌++◌ as ◌<>◌, String}
use mathlib.Core.Bool.{Bool, true, false, ◌&&◌, ◌||◌}
use mathlib.Core.List.{List, [], ◌∷◌}
use text.Mathlib.Text.{starts_with}
use comfyui_runpod_agentic_n.Base.Tests.{if◌then◌else◌, leb, ◌=ℕ=◌}

-- The code points of a text.
abbrev pub codes : String → List ℕ
codes String.[] = []
codes (String.◌∷◌ c s) = code c ∷ codes s

abbrev chars : String → ℕ
chars String.[] = 0
chars (String.◌∷◌ c s) = 1 + chars s

-- `s.lower()` and `s.upper()` on the code points of ASCII texts.
abbrev pub lower_code : ℕ → ℕ
lower_code c = if leb b'A' c && leb c b'Z' then c + 32 else c

abbrev pub upper_code : ℕ → ℕ
upper_code c = if leb b'a' c && leb c b'z' then c - 32 else c

unfoldable pub lower : String → List ℕ
lower String.[] = []
lower (String.◌∷◌ c s) = lower_code (code c) ∷ lower s

unfoldable pub upper : String → List ℕ
upper String.[] = []
upper (String.◌∷◌ c s) = upper_code (code c) ∷ upper s

-- `t in s` on code points.
unfoldable pub is_prefix : List ℕ → List ℕ → Bool
is_prefix [] s = true
is_prefix (c ∷ t) [] = false
is_prefix (c ∷ t) (d ∷ s) = c =ℕ= d && is_prefix t s

unfoldable pub is_infix : List ℕ → List ℕ → Bool
unfolding is_prefix
is_infix t [] = is_prefix t []
is_infix t (c ∷ s) = is_prefix t (c ∷ s) || is_infix t s

-- `s.removeprefix(p)` where `s` starts with `p`: what is left of `s` after as many characters.
abbrev pub skip : String → String → String
skip String.[] s = s
skip (String.◌∷◌ c p) String.[] = String.[]
skip (String.◌∷◌ c p) (String.◌∷◌ d s) = skip p s

abbrev pub remove_prefix : String → String → String
remove_prefix p s = if starts_with s p then skip p s else s

-- One step of `s.rstrip("/")`: a slash is dropped if all that follows it was dropped.
abbrev drops : ℕ → String → Bool
drops c String.[] = c =ℕ= b'/'
drops c (String.◌∷◌ d t) = false

-- `s.rstrip("/")`
unfoldable pub rstrip_slash : String → String
rstrip_slash String.[] = String.[]
rstrip_slash (String.◌∷◌ c s) =
    let rest = rstrip_slash s in if drops (code c) rest then String.[] else String.◌∷◌ c rest

-- `s[:n]`
unfoldable pub first : ℕ → String → String
first ℕ.zero s = String.[]
first (ℕ.suc n) String.[] = String.[]
first (ℕ.suc n) (String.◌∷◌ c s) = String.◌∷◌ c (first n s)

-- `str(n)`. The fuel is `n + 1`, and the quotient falls at each step.
abbrev digit : ℕ → String
digit n =
    if n =ℕ= 0
    then "0"
    else if n =ℕ= 1
    then "1"
    else if n =ℕ= 2
    then "2"
    else if n =ℕ= 3
    then "3"
    else if n =ℕ= 4
    then "4"
    else if n =ℕ= 5
    then "5"
    else if n =ℕ= 6
    then "6"
    else if n =ℕ= 7
    then "7"
    else if n =ℕ= 8
    then "8"
    else "9"

decimal_from : ℕ → ℕ → String
decimal_from ℕ.zero n = ""
decimal_from (ℕ.suc fuel) n =
    let front = decimal_from fuel (n / 10) in if leb n 9 then digit n else (front <> digit (n % 10))

unfoldable pub decimal : ℕ → String
unfolding decimal_from
decimal n = decimal_from (n + 1) n

decimal_runs : decimal 7681 ≡ "7681"
unfolding decimal
decimal_runs = refl

-- `s.replace(old, new)` for a text `old` that is not empty: the occurrences from left to right, where
-- `left` characters of the last one are still to be passed over.
replace_from : ℕ → String → String → String → String
replace_from left old new String.[] = String.[]
replace_from (ℕ.suc left) old new (String.◌∷◌ c s) = replace_from left old new s
replace_from ℕ.zero old new (String.◌∷◌ c s) = elim (starts_with (String.◌∷◌ c s) old) [
  | true ↦ new <> replace_from (chars old - 1) old new s
  | false ↦ String.◌∷◌ c (replace_from 0 old new s)
]

unfoldable pub replace_all : String → String → String → String
unfolding replace_from
replace_all old new s = replace_from 0 old new s

replace_all_runs : replace_all "ab" "-" "xababa" ≡ "x--a"
unfolding replace_all
replace_all_runs = refl

-- The characters that `str.isspace` accepts.
abbrev is_wide_space : ℕ → Bool
is_wide_space c =
    c =ℕ= 133
    || (c =ℕ= 160
        || (c =ℕ= 5760
            || ((leb 8192 c && leb c 8202)
                || (c =ℕ= 8232 || (c =ℕ= 8233 || (c =ℕ= 8239 || (c =ℕ= 8287 || c =ℕ= 12288)))))))

abbrev is_space : ℕ → Bool
is_space c = (leb 9 c && leb c 13) || ((leb 28 c && leb c 32) || is_wide_space c)

left_strip : String → String
left_strip String.[] = String.[]
left_strip (String.◌∷◌ c s) =
    let rest = left_strip s in if is_space (code c) then rest else String.◌∷◌ c s

abbrev drops_space : ℕ → String → Bool
drops_space c String.[] = is_space c
drops_space c (String.◌∷◌ d t) = false

right_strip : String → String
right_strip String.[] = String.[]
right_strip (String.◌∷◌ c s) =
    let rest = right_strip s in if drops_space (code c) rest then String.[] else String.◌∷◌ c rest

-- `s.strip()`, on ASCII.
unfoldable pub strip : String → String
unfolding left_strip right_strip
strip s = right_strip (left_strip s)
