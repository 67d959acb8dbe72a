-- ===== src/Nodes/Skills.antt =====
-- nodes.py: the two nodes that add skills from GitHub repositories. A framework that the table does not
-- hold is a `KeyError`.
pub mod Laws
use comfyui_runpod_agentic_n.Base.{
  ℕ, suc, String, ◌<>◌, Bool, not, ◌||◌, Option, none, some, List, [], ◌∷◌, ◌++◌, if◌then◌else◌, ℤ,
  negsuc, is_empty, starts_with, ◌==◌,
}
use comfyui_runpod_agentic_n.Base.Dict.{Dict, get}
use comfyui_runpod_agentic_n.Base.Text.{strip}
use comfyui_runpod_agentic_n.Base.Result.{Result, ok, require, key_error, ◌>>=◌}
use comfyui_runpod_agentic_n.Specs.{FailurePolicy, RuntimeCommand, RuntimeContract}
use comfyui_runpod_agentic_n.Specs.Deployment.{SkillKind, SkillSource, SkillSpec}
use comfyui_runpod_agentic_n.Nodes.{Scripts, norm, meta_of, invalid, stripped_or, text_of}
use comfyui_runpod_agentic_n.Nodes.Services.{setup_command, contract_of}
use comfyui_runpod_agentic_n.Nodes.Commands.{add_ℕ}

-- `CENTRAL_SKILLS_PATH` of harnesses.py
abbrev pub central_skills_path : String
central_skills_path = "/workspace/.runpod_agentic/skills"

-- `SKILL_FRAMEWORKS`
abbrev pub skill_frameworks : Dict (String × String)
skill_frameworks =
    ("Superpowers", ("https://github.com/obra/superpowers.git", "skills"))
    ∷ ("Superpowers Skills", ("https://github.com/obra/superpowers-skills.git", "skills"))
    ∷ ("Anthropic Skills", ("https://github.com/anthropics/skills.git", "skills"))
    ∷ ("Custom GitHub Repo", ("", "."))
    ∷ []

-- `repo_url.startswith(("https://github.com/", "git@github.com:"))`
abbrev pub is_github : String → Bool
is_github url = starts_with url "https://github.com/" || starts_with url "git@github.com:"

-- The commands of the skills from an index on.
unfoldable pub skill_commands : Scripts → ℕ → List SkillSource → List RuntimeCommand
skill_commands scripts index [] = []
skill_commands scripts index (skill ∷ rest) =
    setup_command (scripts.skill_install skill) (add_ℕ (negsuc 9999) index) FailurePolicy.fail
      ("skill:" <> skill.name)
    ∷ skill_commands scripts (suc index) rest

abbrev pub previous_skills : Option SkillSpec → List SkillSource
previous_skills none = []
previous_skills (some spec) = spec.skills

-- What both nodes do with the skill that they have.
unfoldable pub append_skill :
    Scripts → SkillSource → Option SkillSpec → Option String → String → SkillSpec
unfolding skill_commands
append_skill scripts skill previous node_id display =
    let skills = previous_skills previous ++ skill ∷ [] in
    record {
      skills = skills;
      runtime_contract =
          contract_of (("RUNPOD_AGENT_SKILLS_JSON", scripts.skills_json skills) ∷ []) [] [] []
            (skill_commands scripts 0 skills);
      meta = meta_of node_id display;
    }

-- `SkillNode.build`
unfoldable pub build_skill :
    Scripts
    → String
    → String
    → String
    → String
    → String
    → Option SkillSpec
    → Option String
    → Result SkillSpec
unfolding strip append_skill
build_skill scripts name repo_url repo_path target_path git_ref previous node_id =
    if is_empty (strip name)
    then invalid "Skill name is required."
    else if not (is_github (strip repo_url))
    then invalid "Skill GitHub repo URL must start with https://github.com/ or git@github.com:."
    else ok (
        append_skill scripts
          (record {
            kind = SkillKind.skill;
            name = strip name;
            repo_url = strip repo_url;
            repo_path = stripped_or repo_path ".";
            target_path = stripped_or target_path (central_skills_path <> ("/" <> strip name));
            git_ref = text_of (strip git_ref);
          })
          previous node_id "Skill")

-- `SkillFrameworkNode.build`
unfoldable pub build_skill_framework :
    Scripts
    → String
    → String
    → String
    → String
    → String
    → Option SkillSpec
    → Option String
    → Result SkillSpec
unfolding strip get norm append_skill
build_skill_framework scripts framework custom_url custom_path target_root git_ref previous
      node_id =
    require (get skill_frameworks framework) key_error framework >>= λ found.
    let is_custom = framework == "Custom GitHub Repo" in
    let repo_url = if is_custom then strip custom_url else found.0 in
    let repo_path = if is_custom then stripped_or custom_path "." else found.1 in
    if not (is_github repo_url)
    then invalid
        "Skill framework GitHub repo URL must start with https://github.com/ or git@github.com:."
    else ok (
        append_skill scripts
          (record {
            kind = SkillKind.framework;
            name = norm framework;
            repo_url = repo_url;
            repo_path = repo_path;
            target_path = stripped_or target_root central_skills_path;
            git_ref = text_of (strip git_ref);
          })
          previous node_id "Skill Framework")
