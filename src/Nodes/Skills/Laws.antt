-- ===== src/Nodes/Skills/Laws.antt =====
-- nodes.py: the install commands of a chain of skills.
use mathlib.Core.Path.{subst}
use comfyui_runpod_agentic_n.Base.{
  ℕ, suc, ◌≤◌, String, ◌≡◌, refl, ap, true, not, ◌&&◌, Option, List, [], ◌∷◌, ◌++◌, map, arith,
  leb_ℤ, negsuc, is_empty, inl, inr, Bool-cases,
}
use comfyui_runpod_agentic_n.Base.Text.{strip}
use comfyui_runpod_agentic_n.Base.Result.{ok, is_ok, ok_injective}
use comfyui_runpod_agentic_n.Base.Sort.{All, IsSorted}
use comfyui_runpod_agentic_n.Specs.{RuntimeCommand}
use comfyui_runpod_agentic_n.Specs.Deployment.{SkillSource, SkillSpec}
use comfyui_runpod_agentic_n.Nodes.{Scripts}
use comfyui_runpod_agentic_n.Nodes.Commands.{add_ℕ}
use comfyui_runpod_agentic_n.Nodes.Skills.{
  skill_commands, previous_skills, append_skill, is_github, build_skill,
}

add_mono : (i j : ℕ) → i ≤ j → leb_ℤ (add_ℕ (negsuc 9999) i) (add_ℕ (negsuc 9999) j) ≡ true
add_mono i j h = ground arith

module _ (scripts : Scripts) where
  skill_commands-All :
      (i j : ℕ) (skills : List SkillSource)
      → i ≤ j
      → All
          (λ (c : RuntimeCommand). leb_ℤ (add_ℕ (negsuc 9999) i) c.order ≡ true)
          (skill_commands scripts j skills)
  unfolding skill_commands
  skill_commands-All i j [] h = tt
  skill_commands-All i j (s ∷ skills) h =
      (add_mono i j h, skill_commands-All i (suc j) skills (omega arith))

  skill_commands-IsSorted :
      (i : ℕ) (skills : List SkillSource)
      → IsSorted (λ (c : RuntimeCommand). c.order) (skill_commands scripts i skills)
  unfolding skill_commands
  skill_commands-IsSorted i [] = tt
  skill_commands-IsSorted i (s ∷ skills) =
      (skill_commands-All i (suc i) skills (omega arith), skill_commands-IsSorted (suc i) skills)

  skill_commands-map :
      (i : ℕ) (skills : List SkillSource)
      → map (λ (c : RuntimeCommand). c.command) (skill_commands scripts i skills)
        ≡ map scripts.skill_install skills
  unfolding skill_commands
  skill_commands-map i [] = refl
  skill_commands-map i (s ∷ skills) =
      ap (◌∷◌ (scripts.skill_install s)) (skill_commands-map (suc i) skills)

-- A chain with the skill of a name at its end, and the install commands of all its skills in order.
abbrev Extends : Scripts → Option SkillSpec → String → SkillSpec → Type 0
Extends scripts previous name spec =
    (map (λ c. c.command) spec.runtime_contract.commands ≡ map scripts.skill_install spec.skills)
    × IsSorted (λ c. c.order) spec.runtime_contract.commands
    × ((skill : SkillSource) × (skill.name ≡ name)
        × (spec.skills ≡ previous_skills previous ++ skill ∷ []))

append_skill-Extends :
    (scripts : Scripts) (skill : SkillSource) (previous : Option SkillSpec)
    (node_id : Option String) (display : String)
    → Extends scripts previous skill.name (append_skill scripts skill previous node_id display)
unfolding append_skill
append_skill-Extends scripts skill previous node_id display =
    let skills = previous_skills previous ++ skill ∷ [] in
    (
      skill_commands-map scripts 0 skills,
      skill_commands-IsSorted scripts 0 skills,
      (skill, refl, refl),
    )

-- The skill node makes a chain exactly when the name is not blank and the URL is one of GitHub. The new
-- skill then stands behind those before it, the contract has the install command of every skill of the
-- chain in the chain's order, and these commands stand in ascending order.
pub build_skill-IsSorted :
    (scripts : Scripts) (name repo_url repo_path target_path git_ref : String)
    (previous : Option SkillSpec) (node_id : Option String)
    → let built =
        build_skill scripts name repo_url repo_path target_path git_ref previous node_id in
      (is_ok built ≡ (not (is_empty (strip name)) && is_github (strip repo_url)))
      × ((spec : SkillSpec) → built ≡ ok spec → Extends scripts previous (strip name) spec)
unfolding build_skill
build_skill-IsSorted scripts name repo_url repo_path target_path git_ref previous node_id =
    elim (Bool-cases (is_empty (strip name))) [
      | inl e ↦ rw e (refl, λ spec h. absurd (cc))
      | inr e ↦ rw e (elim (Bool-cases (is_github (strip repo_url))) [
        | inl g ↦ rw g (
          refl,
          λ spec h.
              subst (Extends scripts previous (strip name)) (ok_injective _ spec h)
                (append_skill-Extends scripts _ previous node_id "Skill"),
        )
        | inr g ↦ rw g (refl, λ spec h. absurd (cc))
      ])
    ]
