-- ===== src/Nodes/Services.antt =====
-- nodes.py: the nodes of the services that an agent uses: browser, terminal, language models, databases.
use comfyui_runpod_agentic_n.Base.{
  ℕ, String, Bool, true, false, ◌&&◌, Option, none, some, List, [], ◌∷◌, if◌then◌else◌, ℤ, negsuc,
  is_empty, ◌==◌,
}
use comfyui_runpod_agentic_n.Base.Dict.{Dict}
use comfyui_runpod_agentic_n.Base.Text.{decimal, strip}
use comfyui_runpod_agentic_n.Base.Result.{Result, ok}
use comfyui_runpod_agentic_n.Specs.{
  Materialization, CommandPhase, FailurePolicy, SecretRef, SecretProvider, PortSpec, Protocol,
  RuntimeCommand, RuntimeContract, NetworkStorageSpec, BrowserEngine, BrowserSpec, AuthMode,
  WebTerminalSpec,
}
use comfyui_runpod_agentic_n.Nodes.{Scripts, norm, meta_of, invalid, port_of, stripped_or}

-- The placement of a browser, a choice of two.
pub data Placement : Type 0 where
  own_pod same_pod : Placement

abbrev pub materialize : Placement → Materialization
materialize own_pod = Materialization.own_pod
materialize same_pod = Materialization.same_pod

-- A command that a node adds before the start.
abbrev pub setup_command : String → ℤ → FailurePolicy → String → RuntimeCommand
setup_command command order failure_policy source = record {
  command = command;
  phase = CommandPhase.before_start;
  order = order;
  failure_policy = failure_policy;
  retry_count = 0;
  source = some source;
}

abbrev pub contract_of :
    Dict String
    → List SecretRef
    → List PortSpec
    → Dict String
    → List RuntimeCommand
    → RuntimeContract
contract_of values secrets ports files commands = record {
  env = record { values = values; secrets = secrets };
  ports = ports;
  files = files;
  commands = commands;
}

abbrev pub runpod_secret : String → String → SecretRef
runpod_secret name env_var = record {
  name = name;
  env_var = env_var;
  provider = SecretProvider.runpod_secret;
}

-- `[secret] if secret else []`
abbrev pub listed : {A : Type 0} → Option A → List A
listed none = []
listed (some a) = a ∷ []

-- A secret for a name that is not empty.
abbrev pub secret_for : String → String → Option SecretRef
secret_for name env_var = if is_empty name then none else some (runpod_secret name env_var)

abbrev playwright_spec : Placement → Dict String × List PortSpec × List String
playwright_spec own_pod = (
  ("BROWSER_KIND", "playwright")
      ∷ ("PLAYWRIGHT_MODE", "remote")
      ∷ ("PLAYWRIGHT_WS_ENDPOINT", "crag://browser/playwright")
      ∷ [],
  port_of "playwright" 3000 Protocol.http true ∷ [],
  [],
)
playwright_spec same_pod =
    (("BROWSER_KIND", "playwright") ∷ ("PLAYWRIGHT_MODE", "local") ∷ [], [], "playwright" ∷ [])

abbrev neko_values : Dict String
neko_values =
    ("BROWSER_KIND", "neko")
    ∷ ("NEKO_URL", "crag://browser/neko")
    ∷ ("NEKO_MEMBER_MULTIUSER_USER_PASSWORD", "neko")
    ∷ ("NEKO_MEMBER_MULTIUSER_ADMIN_PASSWORD", "admin")
    ∷ ("NEKO_DESKTOP_SCREEN", "1280x720@30")
    ∷ []

abbrev is_same_pod : Placement → Bool
is_same_pod same_pod = true
is_same_pod own_pod = false

-- `f"rp-browser-{engine}" if placement == "own_pod" else None`
abbrev pub own_pod_key : Placement → String → Option String
own_pod_key own_pod key = some key
own_pod_key same_pod key = none

-- `BrowserNode.build`
unfoldable pub build_browser :
    String → Placement → String → Option NetworkStorageSpec → Option String → Result BrowserSpec
unfolding norm
build_browser browser placement browser_engine network_storage node_id =
    if norm browser == "neko"
    then if is_same_pod placement
      then invalid "Neko browser supports only own_pod placement."
      else ok (record {
        engine = BrowserEngine.neko;
        materialization = materialize placement;
        browser_engine = some (norm browser_engine);
        runtime_contract =
            contract_of neko_values [] (port_of "neko" 8080 Protocol.http true ∷ []) [] [];
        required_image_capabilities = [];
        template_key = own_pod_key placement "rp-browser-neko";
        network_storage = network_storage;
        meta = meta_of node_id browser;
      })
    else ok (record {
      engine = BrowserEngine.playwright;
      materialization = materialize placement;
      browser_engine = some (norm browser_engine);
      runtime_contract =
          contract_of (playwright_spec placement).0 [] (playwright_spec placement).1 [] [];
      required_image_capabilities = (playwright_spec placement).2;
      template_key = own_pod_key placement "rp-browser-playwright";
      network_storage = network_storage;
      meta = meta_of node_id browser;
    })

abbrev auth_text : AuthMode → String
auth_text AuthMode.password = "password"
auth_text AuthMode.none = "none"

abbrev is_password : AuthMode → Bool
is_password AuthMode.password = true
is_password AuthMode.none = false

-- `WebTerminalNode.build`
unfoldable pub build_web_terminal :
    Scripts → String → ℕ → ℕ → AuthMode → String → String → Option String → Result WebTerminalSpec
unfolding strip decimal
build_web_terminal scripts shell port host_port auth_mode username password node_id =
    let shell' = stripped_or shell "/bin/bash" in
    let user = stripped_or username "crag" in
    let password' = strip password in
    if is_password auth_mode && is_empty password'
    then invalid "Web Terminal password is required when auth_mode=password."
    else ok (record {
      shell = shell';
      port = port;
      host_port = host_port;
      auth_mode = auth_mode;
      username = user;
      password = password';
      runtime_contract =
          contract_of
            (("CRAG_WEB_TERMINAL", "1")
              ∷ ("CRAG_WEB_TERMINAL_PORT", decimal port)
              ∷ ("CRAG_WEB_TERMINAL_HOST_PORT", decimal host_port)
              ∷ ("CRAG_WEB_TERMINAL_AUTH_MODE", auth_text auth_mode)
              ∷ ("CRAG_WEB_TERMINAL_USERNAME", user)
              ∷ ("CRAG_WEB_TERMINAL_PASSWORD", password')
              ∷ ("CRAG_WEB_TERMINAL_SHELL", shell')
              ∷ [])
            [] (port_of "terminal" port Protocol.http true ∷ []) []
            (setup_command (scripts.web_terminal port shell' (is_password auth_mode) user password')
                (negsuc 39999) FailurePolicy.continue "web_terminal"
              ∷ []);
      meta = meta_of node_id "Web Terminal";
    })
