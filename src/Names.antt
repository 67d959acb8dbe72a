-- ===== src/Names.antt =====
-- The names of managed pods: `managed_name` of planner.py writes them, and `parse_managed_name` of
-- state_store.py reads them back from what Runpod lists.
pub mod RoundTrip
use Prim.Native.Char.{Char, code}
use comfyui_runpod_agentic_n.Base.{
  ℕ, zero, suc, ◌-◌, String, ◌<>◌, Bool, true, ◌&&◌, ◌||◌, Option, none, some, List, [], ◌∷◌,
  if◌then◌else◌, is_empty, leb, ◌=ℕ=◌, ◌==◌,
}
use comfyui_runpod_agentic_n.Base.Text.{first}
use comfyui_runpod_agentic_n.Base.Characters.{is_alnum, lower_char}
use comfyui_runpod_agentic_n.Planner.Plan.{Role}
use comfyui_runpod_agentic_n.Planner.Env.{role_text}

-- `"".join(ch for ch in str(node_id).lower() if ch.isalnum())`
alnum_lower : String → String
unfolding lower_char
alnum_lower String.[] = ""
alnum_lower (String.◌∷◌ c s) =
    let rest = alnum_lower s in if is_alnum (code c) then lower_char c <> rest else rest

short_text : String → String
unfolding alnum_lower first
short_text node_id =
    if is_empty node_id
    then "node"
    else (let short = first 10 (alnum_lower node_id) in if is_empty short then "node" else short)

unfoldable pub short_node_id : Option String → String
unfolding short_text
short_node_id none = "node"
short_node_id (some node_id) = short_text node_id

unfoldable pub managed_name : String → Role → Option String → String → String
unfolding short_node_id first
managed_name workflow_hash role node_id desired_hash =
    "crag-"
    <> (first 12 workflow_hash
        <> ("-"
            <> (role_text role
                <> ("-" <> (short_node_id node_id <> ("-" <> first 12 desired_hash))))))

-- `name.split("-")`: the part before the first dash, and the parts after it.
push_char : Char → List String → List String
push_char c [] = String.◌∷◌ c String.[] ∷ []
push_char c (part ∷ parts) = String.◌∷◌ c part ∷ parts

unfoldable pub split_dash : String → List String
unfolding push_char
split_dash String.[] = "" ∷ []
split_dash (String.◌∷◌ c s) =
    let parts = split_dash s in if code c =ℕ= b'-' then "" ∷ parts else push_char c parts

pub record ManagedName : Type 0 where
  pub workflow_hash : String
  pub role : String
  pub node_id : String
  pub desired_hash : String

-- Five parts at least, the first of them `crag`; further parts are ignored.
parse_parts : List String → Option ManagedName
parse_parts (crag ∷ w ∷ r ∷ n ∷ d ∷ rest) =
    if crag == "crag"
    then some (record { workflow_hash = w; role = r; node_id = n; desired_hash = d })
    else none
parse_parts _ = none

unfoldable pub parse_managed_name : String → Option ManagedName
unfolding split_dash parse_parts
parse_managed_name name = parse_parts (split_dash name)
