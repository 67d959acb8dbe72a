-- ===== src/Nodes/Agent/Contract.antt =====
-- nodes.py and runtime_contracts.py: the contract of an agent is a merge of contracts.
use comfyui_runpod_agentic_n.Base.{
  ◌≡◌, refl, Bool, Option, none, some, [], ◌∷◌, is_empty, inl, inr, Bool-cases,
}
use comfyui_runpod_agentic_n.Specs.{RuntimeContract}
use comfyui_runpod_agentic_n.Specs.Deployment.{McpServerSpec}
use comfyui_runpod_agentic_n.Contracts.{empty_contract, merge_into, merge_contracts}
use comfyui_runpod_agentic_n.Nodes.{Scripts}
use comfyui_runpod_agentic_n.Nodes.Agent.{
  AgentInputs, own_contract, with_mcp, with_files, with_ports, mcp_contract, skill_contract,
  subagent_contract, terminal_contract, joined_contract, harness_capability_warning,
}

-- Contracts without ports, and without files.
abbrev HasNoPorts : Option RuntimeContract → Type 0
HasNoPorts none = Unit
HasNoPorts (some c) = c.ports ≡ []

abbrev HasNoFiles : Option RuntimeContract → Type 0
HasNoFiles none = Unit
HasNoFiles (some c) = c.files ≡ []

own_contract-merge :
    (skip : Bool) (scripts : Scripts) (i : AgentInputs)
    → merge_into empty_contract (some (own_contract skip scripts i)) ≡ own_contract skip scripts i
unfolding merge_into own_contract
own_contract-merge skip scripts i =
    elim (Bool-cases (is_empty (harness_capability_warning i.harness i.system_prompt))) [
      | inl e ↦ rw e refl
      | inr e ↦ rw e refl
    ]

with_mcp-merge :
    (acc : RuntimeContract) (spec : Option McpServerSpec)
    → acc.ports ≡ []
    → acc.files ≡ []
    → HasNoPorts (mcp_contract spec)
    → HasNoFiles (mcp_contract spec)
    → with_mcp acc spec ≡ merge_into acc (mcp_contract spec)
unfolding with_mcp merge_into
with_mcp-merge acc none p f q g = refl
with_mcp-merge acc (some spec) p f q g = rw (p, f, q, g) refl

with_files-merge :
    (acc : RuntimeContract) (c : Option RuntimeContract)
    → acc.ports ≡ []
    → HasNoPorts c
    → with_files acc c ≡ merge_into acc c
unfolding with_files merge_into
with_files-merge acc none p q = refl
with_files-merge acc (some c) p q = rw (p, q) refl

with_ports-merge :
    (acc : RuntimeContract) (c : Option RuntimeContract) → with_ports acc c ≡ merge_into acc c
unfolding with_ports merge_into
with_ports-merge acc none = refl
with_ports-merge acc (some c) = refl

merge_into-ports :
    (acc : RuntimeContract) (c : Option RuntimeContract)
    → acc.ports ≡ []
    → HasNoPorts c
    → (merge_into acc c).ports ≡ []
unfolding merge_into
merge_into-ports acc none p q = p
merge_into-ports acc (some c) p q = rw (p, q) refl

chain-merge :
    (own : RuntimeContract) (mcp : Option McpServerSpec)
    (skills subagents terminal : Option RuntimeContract)
    → own.ports ≡ []
    → own.files ≡ []
    → HasNoPorts (mcp_contract mcp)
    → HasNoFiles (mcp_contract mcp)
    → HasNoPorts skills
    → HasNoPorts subagents
    → with_ports (with_files (with_files (with_mcp own mcp) skills) subagents) terminal
      ≡ merge_into
          (merge_into (merge_into (merge_into own (mcp_contract mcp)) skills) subagents)
          terminal
chain-merge own mcp skills subagents terminal p f q g r t =
    let one = merge_into own (mcp_contract mcp) in
    let two = merge_into one skills in
    let ports_one = merge_into-ports own (mcp_contract mcp) p q in
    let ports_two = merge_into-ports one skills ports_one r in
    rw
      (
        with_mcp-merge own mcp p f q g,
        with_files-merge one skills ports_one r,
        with_files-merge two subagents ports_two t,
        with_ports-merge (merge_into two subagents) terminal,
      )
      refl

-- Where the contracts of the MCP servers, the skills and the subagents open no port, and that of the MCP
-- servers has no file, the contract of the agent is the merge of its own contract with theirs and the
-- terminal's, in this order, so that a later one wins at a key of the environment or of the files.
pub joined_contract-merge_contracts :
    (skip : Bool) (scripts : Scripts) (i : AgentInputs)
    → HasNoPorts (mcp_contract i.mcp_servers)
    → HasNoFiles (mcp_contract i.mcp_servers)
    → HasNoPorts (skill_contract i.skills)
    → HasNoPorts (subagent_contract i.subagents)
    → joined_contract skip scripts i
      ≡ merge_contracts (
          some (own_contract skip scripts i)
          ∷ mcp_contract i.mcp_servers
          ∷ skill_contract i.skills
          ∷ subagent_contract i.subagents
          ∷ terminal_contract i.terminal
          ∷ [])
unfolding joined_contract merge_contracts
joined_contract-merge_contracts skip scripts i mcp files skills subagents =
    rw (own_contract-merge skip scripts i) (
      chain-merge (own_contract skip scripts i) i.mcp_servers (skill_contract i.skills)
        (subagent_contract i.subagents) (terminal_contract i.terminal) refl refl mcp files skills
        subagents)
