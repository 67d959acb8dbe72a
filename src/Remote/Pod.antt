-- ===== src/Remote/Pod.antt =====
-- A pod as the client returns it: a `dict` of which only these keys are read, and of which is known
-- whether it has more keys. A key may be absent, or hold null, or hold a value.
use comfyui_runpod_agentic_n.Base.{
  ℕ, String, ◌<>◌, Bool, true, false, ◌||◌, Option, none, some, List, [], ◌∷◌, if◌then◌else◌,
  or_text, nonzero, truthy, value_or, ◌=ℕ=◌, not, ◌&&◌, text_or,
}
use comfyui_runpod_agentic_n.Base.Dict.{Dict, put}
use comfyui_runpod_agentic_n.Base.Text.{lower, codes, decimal}

pub data Slot (A : Type 0) : Type 0 where
  absent : Slot A
  null : Slot A
  held : A → Slot A

module _ {A : Type 0} where
  -- `d.get(k)`
  abbrev pub seen : Slot A → Option A
  seen absent = none
  seen null = none
  seen (held a) = some a

  -- `d.get(k, default)`
  abbrev pub seen_or : Slot A → A → Option A
  seen_or absent a = some a
  seen_or null a = none
  seen_or (held b) a = some b

  -- `{**d, **e}` at one key.
  abbrev pub over : Slot A → Slot A → Slot A
  over a absent = a
  over a null = null
  over a (held b) = held b

pub record Port : Type 0 where
  pub private_port : Slot ℕ
  pub container_port : Slot ℕ
  pub container_port_snake : Slot ℕ
  pub public_port : Slot ℕ
  pub public_port_snake : Slot ℕ
  pub ip : Slot String
  pub host : Slot String
  pub hostname : Slot String
  pub kind : Slot String
  pub protocol : Slot String

pub record Runtime : Type 0 where
  pub ports : Slot (List Port)
  pub uptime_in_seconds : Slot ℕ

pub record EnvItem : Type 0 where
  pub key : Slot String
  pub name : Slot String
  pub value : Slot String

pub data PodEnv : Type 0 where
  table : Dict String → PodEnv
  items : List EnvItem → PodEnv

pub record Pod : Type 0 where
  pub id : Slot String
  pub name : Slot String
  pub desired_status : Slot String
  pub status : Slot String
  pub adjusted_cost_per_hr : Slot ℕ
  pub cost_per_hr : Slot ℕ
  pub template_id : Slot String
  pub template_id_snake : Slot String
  pub runtime : Slot Runtime
  pub ports : Slot (List Port)
  pub env : Slot PodEnv
  pub machine_env : Slot PodEnv
  pub has_more : Bool

-- `{}`
abbrev pub empty_pod : Pod
empty_pod = record {
  id = absent;
  name = absent;
  desired_status = absent;
  status = absent;
  adjusted_cost_per_hr = absent;
  cost_per_hr = absent;
  template_id = absent;
  template_id_snake = absent;
  runtime = absent;
  ports = absent;
  env = absent;
  machine_env = absent;
  has_more = false;
}

abbrev is_absent : {A : Type 0} → Slot A → Bool
is_absent absent = true
is_absent _ = false

-- `not pod`
abbrev pub is_blank : Pod → Bool
is_blank p =
    not p.has_more
    && (is_absent p.id
        && (is_absent p.name
            && (is_absent p.desired_status
                && (is_absent p.status
                    && (is_absent p.adjusted_cost_per_hr
                        && (is_absent p.cost_per_hr
                            && (is_absent p.template_id
                                && (is_absent p.template_id_snake
                                    && (is_absent p.runtime
                                        && (is_absent p.ports
                                            && (is_absent p.env
                                                && is_absent p.machine_env)))))))))))

-- `{**pod, **resumed}`
abbrev pub overlay : Pod → Pod → Pod
overlay p q = record {
  id = over p.id q.id;
  name = over p.name q.name;
  desired_status = over p.desired_status q.desired_status;
  status = over p.status q.status;
  adjusted_cost_per_hr = over p.adjusted_cost_per_hr q.adjusted_cost_per_hr;
  cost_per_hr = over p.cost_per_hr q.cost_per_hr;
  template_id = over p.template_id q.template_id;
  template_id_snake = over p.template_id_snake q.template_id_snake;
  runtime = over p.runtime q.runtime;
  ports = over p.ports q.ports;
  env = over p.env q.env;
  machine_env = over p.machine_env q.machine_env;
  has_more = p.has_more || q.has_more;
}

-- `a or b` on optional numbers.
abbrev pub or_nat : Option ℕ → Option ℕ → Option ℕ
or_nat a b = if nonzero a then a else b

-- `pod.get("adjustedCostPerHr") or pod.get("costPerHr")`
abbrev pub cost_of : Pod → Option ℕ
cost_of pod = or_nat (seen pod.adjusted_cost_per_hr) (seen pod.cost_per_hr)

abbrev is_full : Option PodEnv → Bool
is_full none = false
is_full (some (PodEnv.table [])) = false
is_full (some (PodEnv.table (e ∷ d))) = true
is_full (some (PodEnv.items [])) = false
is_full (some (PodEnv.items (e ∷ d))) = true

-- `key = item.get("key") or item.get("name")`, and the value is kept if both are there.
abbrev add_item : Dict String → EnvItem → Dict String
add_item values item =
    let key = or_text (seen item.key) (seen item.name) in
    elim (seen item.value) [
      | none ↦ values
      | some value ↦ if truthy key then put values (value_or key "") value else values
    ]

add_items : Dict String → List EnvItem → Dict String
unfolding put
add_items values [] = values
add_items values (item ∷ rest) = add_items (add_item values item) rest

abbrev env_values : Option PodEnv → Dict String
env_values none = []
env_values (some (PodEnv.table d)) = d
env_values (some (PodEnv.items xs)) = add_items [] xs

unfoldable pub pod_env : Pod → Dict String
unfolding add_items
pod_env pod = env_values (if is_full (seen pod.env) then seen pod.env else seen pod.machine_env)

-- `(pod.get("runtime") or {}).get("ports") or pod.get("ports") or []`
abbrev has_ports : Option (List Port) → Bool
has_ports none = false
has_ports (some []) = false
has_ports (some (p ∷ ps)) = true

abbrev runtime_ports : Option Runtime → Option (List Port)
runtime_ports none = none
runtime_ports (some r) = seen r.ports

abbrev pub pod_ports : Pod → List Port
pod_ports pod =
    if has_ports (runtime_ports (seen pod.runtime))
    then value_or (runtime_ports (seen pod.runtime)) []
    else value_or (seen pod.ports) []

-- `(pod.get("runtime") or {}).get("ports")`, as a test.
abbrev pub has_runtime_ports : Pod → Bool
has_runtime_ports pod = has_ports (runtime_ports (seen pod.runtime))

abbrev pub uptime_of : Pod → ℕ
uptime_of pod = elim (seen pod.runtime) [
  | none ↦ 0
  | some r ↦ value_or (seen r.uptime_in_seconds) 0
]

abbrev pub private_of : Port → ℕ
private_of port =
    value_or
      (or_nat (or_nat (seen port.private_port) (seen port.container_port))
        (seen port.container_port_snake))
      0

abbrev pub public_of : Port → Option ℕ
public_of port = or_nat (seen port.public_port) (seen port.public_port_snake)

abbrev pub host_of : Port → Option String
host_of port = or_text (or_text (seen port.ip) (seen port.host)) (seen port.hostname)

abbrev pub kind_of : Port → Option String
kind_of port = or_text (seen port.kind) (seen port.protocol)

abbrev same_codes : List ℕ → List ℕ → Bool
same_codes [] [] = true
same_codes (x ∷ a) (y ∷ b) = x =ℕ= y && same_codes a b
same_codes _ _ = false

-- `text.lower() == "https"`, for a word that is lower case itself.
unfoldable pub is_lower_word : String → String → Bool
unfolding lower
is_lower_word word text = same_codes (codes word) (lower text)

-- `f"{scheme}://{host}:{int(public)}"`
unfoldable pub address_of : Port → String
unfolding decimal is_lower_word
address_of port =
    let scheme =
      if is_lower_word "https" (text_or (kind_of port) "none") then "https" else "http" in
    scheme
    <> ("://" <> (value_or (host_of port) "" <> (":" <> decimal (value_or (public_of port) 0))))
