-- ===== src/Local/Text/Names.antt =====
-- local_runtime.py: what the names of services and of project files are made of.
use Prim.Native.Char.{Char, code}
use text.Mathlib.TextLemmas.{nil-append, cons-append}
use comfyui_runpod_agentic_n.Base.{
  ℕ, String, ◌<>◌, Bool, true, false, ◌&&◌, ◌≡◌, refl, arith, is_empty, ◌=ℕ=◌, inl, inr, Bool-cases,
}
use comfyui_runpod_agentic_n.Base.Characters.{lower_text, lstrip, rstrip, strip_char, dashed}
use comfyui_runpod_agentic_n.Local.Text.{
  is_service_char, is_file_char, or_default, compose_service_name_from_text, safe_project,
}

-- Every character passes a test.
unfoldable pub all_chars : (ℕ → Bool) → String → Bool
all_chars p String.[] = true
all_chars p (String.◌∷◌ c s) = p (code c) && all_chars p s

module _ (p : ℕ → Bool) (dash : p b'-' ≡ true) where
  all_chars-dash : (s : String) → all_chars p s ≡ true → all_chars p ("-" <> s) ≡ true
  unfolding all_chars
  all_chars-dash s h = rw (cons-append, nil-append) (rw (dash, h) refl)

  all_chars-dashed : (in_run : Bool) (s : String) → all_chars p (dashed p in_run s) ≡ true
  unfolding all_chars dashed
  all_chars-dashed in_run String.[] = refl
  all_chars-dashed in_run (String.◌∷◌ c s) = elim (Bool-cases (p (code c))) [
    | inl e ↦ rw e (rw (e, all_chars-dashed false s) refl)
    | inr e ↦ rw e (elim (Bool-cases in_run) [
      | inl r ↦ rw r (all_chars-dashed true s)
      | inr r ↦ rw r (all_chars-dash (dashed p true s) (all_chars-dashed true s))
    ])
  ]

module _ (p : ℕ → Bool) (k : ℕ) where
  all_chars-lstrip : (s : String) → all_chars p s ≡ true → all_chars p (lstrip k s) ≡ true
  unfolding all_chars lstrip
  all_chars-lstrip String.[] h = refl
  all_chars-lstrip (String.◌∷◌ c s) h = elim (Bool-cases (code c =ℕ= k)) [
    | inl e ↦ rw e (all_chars-lstrip s (ground arith))
    | inr e ↦ rw e h
  ]

  all_chars-rstrip : (s : String) → all_chars p s ≡ true → all_chars p (rstrip k s) ≡ true
  unfolding all_chars rstrip
  all_chars-rstrip String.[] h = refl
  all_chars-rstrip (String.◌∷◌ c s) h =
      let ih = all_chars-rstrip s (ground arith) in
      elim (Bool-cases (is_empty (rstrip k s) && code c =ℕ= k)) [
        | inl e ↦ rw e refl
        | inr e ↦ rw e (ground (arith, ih))
      ]

  all_chars-strip_char : (s : String) → all_chars p s ≡ true → all_chars p (strip_char k s) ≡ true
  unfolding strip_char
  all_chars-strip_char s h = all_chars-rstrip (lstrip k s) (all_chars-lstrip s h)

-- The first and the last character.
unfoldable pub first_is : ℕ → String → Bool
first_is k String.[] = false
first_is k (String.◌∷◌ c s) = code c =ℕ= k

unfoldable pub last_is : ℕ → String → Bool
last_is k String.[] = false
last_is k (String.◌∷◌ c String.[]) = code c =ℕ= k
last_is k (String.◌∷◌ c (String.◌∷◌ d s)) = last_is k (String.◌∷◌ d s)

module _ (k : ℕ) where
  first_is-lstrip : (s : String) → first_is k (lstrip k s) ≡ false
  unfolding first_is lstrip
  first_is-lstrip String.[] = refl
  first_is-lstrip (String.◌∷◌ c s) = elim (Bool-cases (code c =ℕ= k)) [
    | inl e ↦ rw e (first_is-lstrip s)
    | inr e ↦ rw e e
  ]

  first_is-rstrip : (s : String) → first_is k s ≡ false → first_is k (rstrip k s) ≡ false
  unfolding first_is rstrip
  first_is-rstrip String.[] h = refl
  first_is-rstrip (String.◌∷◌ c s) h = elim (Bool-cases (is_empty (rstrip k s) && code c =ℕ= k)) [
    | inl e ↦ rw e refl
    | inr e ↦ rw e h
  ]

  last_step :
      (c : Char) (rest : String)
      → last_is k rest ≡ false
      → (is_empty rest && code c =ℕ= k) ≡ false
      → last_is k (String.◌∷◌ c rest) ≡ false
  unfolding last_is
  last_step c String.[] h e = e
  last_step c (String.◌∷◌ d rest) h e = h

  last_is-rstrip : (s : String) → last_is k (rstrip k s) ≡ false
  unfolding last_is rstrip
  last_is-rstrip String.[] = refl
  last_is-rstrip (String.◌∷◌ c s) = elim (Bool-cases (is_empty (rstrip k s) && code c =ℕ= k)) [
    | inl e ↦ rw e refl
    | inr e ↦ rw e (last_step c (rstrip k s) (last_is-rstrip s) e)
  ]

-- A name of a kind of characters, which is not empty and neither begins nor ends with a dash.
abbrev pub IsName : (ℕ → Bool) → String → Type 0
IsName p name =
    (all_chars p name ≡ true)
    × (is_empty name ≡ false)
    × (first_is b'-' name ≡ false)
    × (last_is b'-' name ≡ false)

or_default-IsName :
    (p : ℕ → Bool) (default text : String)
    → p b'-' ≡ true
    → IsName p default
    → IsName p (or_default (strip_char b'-' (dashed p false text)) default)
unfolding strip_char
or_default-IsName p default text dash d =
    let dashes = dashed p false text in
    let name = strip_char b'-' dashes in
    elim (Bool-cases (is_empty name)) [
      | inl e ↦ rw e d
      | inr e ↦ rw e (
        all_chars-strip_char p b'-' dashes (all_chars-dashed p dash false text),
        e,
        first_is-rstrip b'-' (lstrip b'-' dashes) (first_is-lstrip b'-' dashes),
        last_is-rstrip b'-' (lstrip b'-' dashes),
      )
    ]

-- The name of a compose service is never empty, has small letters, digits, underscores and dashes only, and
-- has no dash at either end, whatever the resource is called.
pub compose_service_name_from_text-IsName :
    (value : String) → IsName is_service_char (compose_service_name_from_text value)
unfolding compose_service_name_from_text all_chars first_is last_is
compose_service_name_from_text-IsName value =
    or_default-IsName is_service_char "service" (lower_text value) refl (refl, refl, refl, refl)

-- The same holds of the name of a project's files, of letters of both cases, digits, underscores, dots and
-- dashes.
pub safe_project-IsName : (project_name : String) → IsName is_file_char (safe_project project_name)
unfolding safe_project all_chars first_is last_is
safe_project-IsName project_name =
    or_default-IsName is_file_char "crag-local" project_name refl (refl, refl, refl, refl)
