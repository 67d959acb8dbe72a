-- ===== src/Nodes/Commands/Subagents.antt =====
-- nodes.py: the names in a chain of subagents.
use mathlib.Core.List.{map-append}
use comfyui_runpod_agentic_n.Base.{
  String, ◌≡◌, refl, false, not, ◌&&◌, ◌||◌, ◌==◌, eq_iff, Option, List, [], ◌∷◌, ◌++◌, arith,
  is_empty, contains, inl, inr, Bool-cases, if◌then◌else◌,
}
use comfyui_runpod_agentic_n.Base.Result.{ok, err, Result, is_ok}
use comfyui_runpod_agentic_n.Specs.Deployment.{Subagent, SubagentSpec}
use comfyui_runpod_agentic_n.Nodes.{Scripts}
use comfyui_runpod_agentic_n.Nodes.Commands.{
  has_duplicates, names_of, previous_subagents, described, build_subagent,
}

contains-append :
    (x y : String) (xs : List String) → contains x (xs ++ y ∷ []) ≡ (contains x xs || x == y)
contains-append x y [] = ground arith
contains-append x y (z ∷ xs) = ground (arith, contains-append x y xs)

has_duplicates-append :
    (xs : List String) (y : String)
    → has_duplicates (xs ++ y ∷ []) ≡ (has_duplicates xs || contains y xs)
unfolding has_duplicates
has_duplicates-append [] y = refl
has_duplicates-append (x ∷ xs) y =
    ground (arith, has_duplicates-append xs y, contains-append x y xs, eq_iff x y, eq_iff y x)

-- Whether the names of a chain are those of different subagents.
abbrev Distinct : Option SubagentSpec → Type 0
Distinct previous = has_duplicates (names_of (previous_subagents previous)) ≡ false

names-append :
    (previous : Option SubagentSpec) (added : Subagent)
    → Distinct previous
    → has_duplicates (names_of (previous_subagents previous ++ added ∷ []))
      ≡ contains added.name (names_of (previous_subagents previous))
names-append previous added distinct =
    rw
      (
        map-append (λ (s : Subagent). s.name) (previous_subagents previous) (added ∷ []),
        has_duplicates-append (names_of (previous_subagents previous)) added.name,
        distinct,
      )
      refl

-- The chain that there is after a node has been tried.
abbrev pub chain_after : Option SubagentSpec → Result SubagentSpec → List Subagent
chain_after previous (ok spec) = spec.subagents
chain_after previous (err e) = previous_subagents previous

-- Where no name stands twice in a chain, a subagent is added exactly when its stripped model is not
-- empty and its cleaned name is not in the chain yet; it is then added at the end, else the chain stays as
-- it is, and in both cases no name stands twice.
pub build_subagent-Distinct :
    (scripts : Scripts) (name model prompt : String) (previous : Option SubagentSpec)
    (node_id : Option String)
    → Distinct previous
    → let added = described scripts name model prompt node_id in
      let chain = previous_subagents previous in
      let fits = not (is_empty added.model) && not (contains added.name (names_of chain)) in
      let built = build_subagent scripts name model prompt previous node_id in
      (is_ok built ≡ fits)
      × (chain_after previous built ≡ (if fits then chain ++ added ∷ [] else chain))
      × (has_duplicates (names_of (chain_after previous built)) ≡ false)
unfolding build_subagent
build_subagent-Distinct scripts name model prompt previous node_id distinct =
    let added = described scripts name model prompt node_id in
    let names = names_of (previous_subagents previous) in
    let repeats = names-append previous added distinct in
    rw repeats (elim (Bool-cases (is_empty added.model)) [
      | inl e ↦ rw e (refl, refl, distinct)
      | inr e ↦ rw e (elim (Bool-cases (contains added.name names)) [
        | inl d ↦ rw d (refl, refl, distinct)
        | inr d ↦ rw d (refl, refl, rw repeats d)
      ])
    ])
