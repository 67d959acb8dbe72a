-- ===== src/Names/RoundTrip.antt =====
-- Reading a managed name gives back what it was written from.
use Prim.Native.Char.{Char, code}
use text.Mathlib.TextLemmas.{nil-append, cons-append, append_assoc}
use comfyui_runpod_agentic_n.Base.{
  ℕ, zero, suc, String, ◌<>◌, ◌≡◌, ◌≢◌, refl, true, Option, none, some, List, [], ◌∷◌, arith, inl,
  inr, Bool-cases, is_empty, ◌-◌, leb, ◌&&◌,
}
use comfyui_runpod_agentic_n.Base.Text.{first}
use comfyui_runpod_agentic_n.Planner.Plan.{Role}
use comfyui_runpod_agentic_n.Planner.Env.{role_text}
use comfyui_runpod_agentic_n.Base.Characters.{is_alnum, char_from, lower_char}
use comfyui_runpod_agentic_n.Names.{
  alnum_lower, short_text, short_node_id, managed_name, split_dash, parse_managed_name,
}

-- No character of the text is a dash.
abbrev pub HasNoDash : String → Type 0
HasNoDash String.[] = Unit
HasNoDash (String.◌∷◌ c s) = (code c ≢ b'-') × HasNoDash s

HasNoDash-append : (s t : String) → HasNoDash s → HasNoDash t → HasNoDash (s <> t)
HasNoDash-append String.[] t h k = rw nil-append k
HasNoDash-append (String.◌∷◌ c s) t h k = rw cons-append (h.0, HasNoDash-append s t h.1 k)

HasNoDash-first : (n : ℕ) (s : String) → HasNoDash s → HasNoDash (first n s)
unfolding first
HasNoDash-first zero s h = tt
HasNoDash-first (suc n) String.[] h = tt
HasNoDash-first (suc n) (String.◌∷◌ c s) h = (h.0, HasNoDash-first n s h.1)

HasNoDash-char_from : (s : String) (k : ℕ) → HasNoDash s → HasNoDash (char_from s k)
unfolding char_from
HasNoDash-char_from String.[] k h = tt
HasNoDash-char_from (String.◌∷◌ c s) zero h = (h.0, tt)
HasNoDash-char_from (String.◌∷◌ c s) (suc k) h = HasNoDash-char_from s k h.1

HasNoDash-lower_char : (c : Char) → is_alnum (code c) ≡ true → HasNoDash (lower_char c)
unfolding lower_char
HasNoDash-lower_char c h = elim (Bool-cases (leb b'A' (code c) && leb (code c) b'Z')) [
  | inl e ↦ rw e (HasNoDash-char_from "abcdefghijklmnopqrstuvwxyz" (code c - b'A') (omega arith))
  | inr e ↦ rw e (ground arith, tt)
]

split_dash_plain : (s : String) → HasNoDash s → split_dash s ≡ s ∷ []
unfolding split_dash
split_dash_plain String.[] h = refl
split_dash_plain (String.◌∷◌ c s) h = rw (split_dash_plain s h.1, split_dash) (ground arith)

split_dash_at : (t : String) → split_dash ("-" <> t) ≡ "" ∷ split_dash t
unfolding split_dash
split_dash_at t = rw (cons-append, nil-append) refl

split_dash_step :
    (c : Char) (s part : String) (parts : List String)
    → code c ≢ b'-'
    → split_dash s ≡ part ∷ parts
    → split_dash (String.◌∷◌ c s) ≡ String.◌∷◌ c part ∷ parts
unfolding split_dash
split_dash_step c s part parts h e = rw e (ground arith)

split_dash-append : (s t : String) → HasNoDash s → split_dash (s <> ("-" <> t)) ≡ s ∷ split_dash t
split_dash-append String.[] t h = rw nil-append (split_dash_at t)
split_dash-append (String.◌∷◌ c s) t h =
    rw cons-append
      (split_dash_step c (s <> ("-" <> t)) s (split_dash t) h.0 (split_dash-append s t h.1))

HasNoDash-alnum_lower : (s : String) → HasNoDash (alnum_lower s)
unfolding alnum_lower
HasNoDash-alnum_lower String.[] = tt
HasNoDash-alnum_lower (String.◌∷◌ c s) = elim (Bool-cases (is_alnum (code c))) [
  | inl e ↦ rw e (
      HasNoDash-append (lower_char c) (alnum_lower s) (HasNoDash-lower_char c e)
        (HasNoDash-alnum_lower s))
  | inr e ↦ rw e (HasNoDash-alnum_lower s)
]

HasNoDash-short_text : (s : String) → HasNoDash (short_text s)
unfolding short_text
HasNoDash-short_text s = elim (Bool-cases (is_empty s)) [
  | inl e ↦ rw e (omega arith)
  | inr e ↦ rw e (elim (Bool-cases (is_empty (first 10 (alnum_lower s)))) [
    | inl f ↦ rw f (omega arith)
    | inr f ↦ rw f (HasNoDash-first 10 (alnum_lower s) (HasNoDash-alnum_lower s))
  ])
]

HasNoDash-short_node_id : (node_id : Option String) → HasNoDash (short_node_id node_id)
unfolding short_node_id
HasNoDash-short_node_id none = omega arith
HasNoDash-short_node_id (some s) = HasNoDash-short_text s

HasNoDash-role_text : (role : Role) → HasNoDash (role_text role)
HasNoDash-role_text Role.llm = omega arith
HasNoDash-role_text Role.sql = omega arith
HasNoDash-role_text Role.vector = omega arith
HasNoDash-role_text Role.browser = omega arith
HasNoDash-role_text Role.agent = omega arith

split_dash_crag : (s : String) → split_dash ("crag-" <> s) ≡ "crag" ∷ split_dash s
split_dash_crag s = rw (append_assoc "crag" "-" s) (split_dash-append "crag" s (omega arith))

split_five :
    (a b c d : String)
    → HasNoDash a
    → HasNoDash b
    → HasNoDash c
    → HasNoDash d
    → split_dash ("crag-" <> (a <> ("-" <> (b <> ("-" <> (c <> ("-" <> d)))))))
      ≡ "crag" ∷ a ∷ b ∷ c ∷ d ∷ []
split_five a b c d ha hb hc hd =
    rw
      (
        split_dash_crag (a <> ("-" <> (b <> ("-" <> (c <> ("-" <> d)))))),
        split_dash-append a (b <> ("-" <> (c <> ("-" <> d)))) ha,
        split_dash-append b (c <> ("-" <> d)) hb,
        split_dash-append c d hc,
        split_dash_plain d hd,
      )
      refl

-- Where the two hashes hold no dash, as hexadecimal digits do, the name of a managed pod reads back
-- as the first twelve characters of the workflow hash, the role, the short node id and the first
-- twelve characters of the desired hash.
pub parse_managed_name-managed_name :
    (workflow_hash : String) (role : Role) (node_id : Option String) (desired_hash : String)
    → HasNoDash workflow_hash
    → HasNoDash desired_hash
    → parse_managed_name (managed_name workflow_hash role node_id desired_hash)
      ≡ some (record {
        workflow_hash = first 12 workflow_hash;
        role = role_text role;
        node_id = short_node_id node_id;
        desired_hash = first 12 desired_hash;
      })
unfolding parse_managed_name managed_name
parse_managed_name-managed_name workflow_hash role node_id desired_hash w d =
    rw
      (split_five (first 12 workflow_hash) (role_text role) (short_node_id node_id)
        (first 12 desired_hash) (HasNoDash-first 12 workflow_hash w) (HasNoDash-role_text role)
        (HasNoDash-short_node_id node_id) (HasNoDash-first 12 desired_hash d))
      refl
