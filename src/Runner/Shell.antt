-- ===== src/Runner/Shell.antt =====
-- runner.py: quoting for the shell, and the names of log files.
pub mod Quotes
use Prim.Native.Char.{Char, code}
use comfyui_runpod_agentic_n.Base.{
  ℕ, zero, suc, ◌-◌, String, ◌<>◌, Bool, true, false, if◌then◌else◌, ◌=ℕ=◌, ℤ, pos, negsuc, leb,
  List, [], ◌∷◌, ◌≡◌, refl, Option, none, some, ap,
}
use comfyui_runpod_agentic_n.Base.Text.{decimal, first}
use comfyui_runpod_agentic_n.Specs.{CommandPhase}

-- `value.replace("'", "'\"'\"'")`
unfoldable pub escape : String → String
escape String.[] = ""
escape (String.◌∷◌ c s) =
    let rest = escape s in if code c =ℕ= 39 then "'\"'\"'" <> rest else String.◌∷◌ c rest

-- `shell_env`, and `shell_quote` of ssh_client.py
unfoldable pub shell_env : String → String
unfolding escape
shell_env value = "'" <> (escape value <> "'")

abbrev pub phase_text : CommandPhase → String
phase_text CommandPhase.before_start = "before_start"
phase_text CommandPhase.after_start = "after_start"
phase_text CommandPhase.after_ready = "after_ready"
phase_text CommandPhase.teardown = "teardown"

-- `f"{order:04d}"`
pad : ℕ → ℕ → String
unfolding decimal
pad width n =
    let zeros =
      if leb 1000 n
      then ""
      else if leb 100 n
      then first (width - 3) "000"
      else if leb 10 n
      then first (width - 2) "000"
      else first (width - 1) "000" in
    zeros <> decimal n

unfoldable pub order_text : ℤ → String
unfolding pad
order_text (pos n) = pad 4 n
order_text (negsuc n) = "-" <> pad 3 (suc n)

-- `str(n)` of an integer.
unfoldable pub integer_text : ℤ → String
unfolding decimal
integer_text (pos n) = decimal n
integer_text (negsuc n) = "-" <> decimal (suc n)

-- A shell's reading of one word that is made of single quotes, double quotes and bare characters: what
-- the word stands for and what follows it, or nothing if a quote is left open.
pub data Mode : Type 0 where
  bare single double : Mode

abbrev put_char : Char → Option String → Option String
put_char c none = none
put_char c (some s) = some (String.◌∷◌ c s)

unfoldable pub read_word : Mode → String → Option String
read_word Mode.bare String.[] = some ""
read_word Mode.single String.[] = none
read_word Mode.double String.[] = none
read_word Mode.bare (String.◌∷◌ c s) =
    if code c =ℕ= 39
    then read_word Mode.single s
    else if code c =ℕ= 34
    then read_word Mode.double s
    else none
read_word Mode.single (String.◌∷◌ c s) =
    if code c =ℕ= 39 then read_word Mode.bare s else put_char c (read_word Mode.single s)
read_word Mode.double (String.◌∷◌ c s) =
    if code c =ℕ= 34 then read_word Mode.bare s else put_char c (read_word Mode.double s)
