-- ===== src/Runner/Shell/Quotes.antt =====
-- A shell reads a quoted text back as what was quoted.
use Prim.Native.Char.{Char, code}
use text.Mathlib.TextEquality.{Char-path}
use text.Mathlib.TextLemmas.{nil-append, cons-append, append-nil, append_assoc}
use comfyui_runpod_agentic_n.Base.{
  String, ◌<>◌, ◌≡◌, refl, sym, ap, ◌∙◌, false, ◌=ℕ=◌, some, Bool-cases, inl, inr, arith,
}
use comfyui_runpod_agentic_n.Runner.Shell.{escape, shell_env, Mode, read_word}

-- The quotation of a quote: it closes the quotes, stands in double quotes, and opens them again.
quoted_quote :
    (u : String) (t : String)
    → read_word Mode.single u ≡ some t
    → read_word Mode.single ("'\"'\"'" <> u) ≡ some ("'" <> t)
unfolding read_word
quoted_quote u t h =
    rw
      (
        cons-append, cons-append, cons-append, cons-append, cons-append, nil-append, h, cons-append,
        nil-append,
      )
      refl

quote_at : (c : Char) (s : String) → code c ≡ 39 → String.◌∷◌ c s ≡ "'" <> s
quote_at c s e = rw (cons-append, nil-append) (ap (λ d. String.◌∷◌ d s) (Char-path c _ e))

plain_char :
    (c : Char) (u t : String)
    → (code c =ℕ= 39) ≡ false
    → read_word Mode.single u ≡ some t
    → read_word Mode.single (String.◌∷◌ c u) ≡ some (String.◌∷◌ c t)
unfolding read_word
plain_char c u t e h = rw (e, h) refl

-- Inside single quotes the escaped text is read as the text, and then the rest.
read_word-escape :
    (s rest t : String)
    → read_word Mode.single rest ≡ some t
    → read_word Mode.single (escape s <> rest) ≡ some (s <> t)
unfolding escape
read_word-escape String.[] rest t h = rw (nil-append, nil-append) h
read_word-escape (String.◌∷◌ c s) rest t h = elim (Bool-cases (code c =ℕ= 39)) [
  | inl e ↦
      rw (e, append_assoc)
        (quoted_quote (escape s <> rest) (s <> t) (read_word-escape s rest t h)
          ∙ ap some (sym (cons-append c s t ∙ quote_at c (s <> t) (ground arith))))
  | inr e ↦
      rw (e, cons-append, cons-append)
        (plain_char c (escape s <> rest) (s <> t) e (read_word-escape s rest t h))
]

closed : read_word Mode.single "'" ≡ some ""
unfolding read_word
closed = refl

opened : (u t : String) → read_word Mode.single u ≡ some t → read_word Mode.bare ("'" <> u) ≡ some t
unfolding read_word
opened u t h = rw (cons-append, nil-append) h

-- A shell reads the word that `shell_env` and `shell_quote` make of a text as that text, whatever quotes
-- it has.
pub read_word-shell_env : (s : String) → read_word Mode.bare (shell_env s) ≡ some s
unfolding shell_env
read_word-shell_env s =
    opened (escape s <> "'") s (read_word-escape s "'" "" closed ∙ ap some (append-nil s))
