-- ===== src/Lib.antt =====
-- CRAG nodes: a ComfyUI extension whose nodes describe an agent with its language model, databases,
-- browser, commands and policies, and that plans and runs it on Runpod pods or on local containers.
--
-- The parts and how they interact (paths from the repository's root):
--   * comfyui_runpod_agentic/specs.py builds the specifications that the nodes pass on. Specs holds the
--     contracts, storages and dependencies, Specs.Deployment the whole `DeploymentSpec`.
--   * comfyui_runpod_agentic/nodes.py has the nodes that build these specifications from the user's
--     values and from what is connected to them. Nodes has what they share, Nodes.Services the browser and
--     the web terminal, Nodes.Models and Nodes.Databases the services of the agent, Nodes.Commands the
--     chains of commands, MCP servers and subagents, Nodes.Skills the skills with the path of
--     comfyui_runpod_agentic/harnesses.py, Nodes.Agent the agent, whose contract joins those of all
--     parts, and Nodes.Deploy storage, keep-alive, SSH access and the deployment, which it validates.
--   * comfyui_runpod_agentic/runtime_contracts.py merges what each part asks of the agent's runtime
--     (`merge_contracts` in Contracts) and redacts environments (Contracts.Secrets).
--   * comfyui_runpod_agentic/template_resolver.py chooses a template for an agent or a dependency
--     (`resolve_id`, `resolve_agent`, `resolve_app` in Templates).
--   * comfyui_runpod_agentic/validation.py refuses deployments (`validate_deployment` in Validation).
--   * comfyui_runpod_agentic/planner.py turns a deployment into a plan: Planner.Plan has the plan's data,
--     Planner.Env the environments, Planner.PodInput `_pod_input` and `_own_pod_dependencies`,
--     Planner.Actions `_actions`, and Planner.Build `PlanBuilder.build`, which calls validation, the
--     templates and the merge of contracts in the source's order.
--   * Names has the planner's `managed_name` and the store's `parse_managed_name`, which reads it back.
--   * comfyui_runpod_agentic/state_store.py keeps runs, resources, commands, events and counters in
--     SQLite. Store.Table is a table as a list of rows with the insertions, upserts, updates and queries
--     that the statements use, Store.Rows the rows, Store.Operations one function per method.
--   * comfyui_runpod_agentic/runner.py applies a plan. Its code runs in the monad of Remote.Exec over a
--     `World` (the store, the calls made so far, the answers of the outside). Runner.Endpoints,
--     Runner.Pods and Runner.Shell are its pure helpers, Runner.Waits the waiting loops, Runner.Launch the
--     pods and network volumes, Runner.Commands `run_ssh_command_action`, Runner.Agent the agent's start
--     and its prompt, Runner.KeepAlive the keep-alive monitor, Runner.Lifecycle `stop` and `terminate`,
--     and Runner.Run `_apply` and `run` with its try statement.
--   * comfyui_runpod_agentic/ssh_client.py runs commands and writes files over `ssh` as a subprocess (Ssh);
--     its two endpoint functions are in Runner.Waits.
--   * comfyui_runpod_agentic/cleanup.py ends the managed pods and comfyui_runpod_agentic/keepalive_timer.py
--     stops or terminates a pod after a delay (`cleanup_managed_pods`, `apply_runpod_lifecycle` in
--     Maintenance).
--   * comfyui_runpod_agentic/local_runtime.py runs a plan in local containers. Its code runs in the monad of
--     Local.Host, over the steps taken so far. Local and Local.Text are its data, command lines and
--     placeholders, Local.Compose and Local.Service the compose project of a plan and its volumes,
--     Local.Containers the queries of the engine, Local.Apply the single commands and the reuse of
--     containers, Local.Run `apply_local_runtime_plan`, Local.Waits the loops that wait for the startup
--     and for files, and Local.Timer the keep-alive policies.
--   The other modules below a component hold the proofs about it, named for what they prove. Base holds
--   the Boolean tests, dictionaries, stable sort, results and text that all components share.
--
-- How the code is read:
--   * A dictionary is an association list in insertion order with unique keys where the code builds it.
--     A pod as Runpod answers it (Remote.Pod) tells a missing, a null and a present field apart.
--   * An exception is the `err` of a result, or an `Outcome` in the runner, with its class and text.
--   * Amounts in US dollars are counted in millionths, and the estimate of a cost is compared after a
--     multiplication by 3600 instead of a division. The clock counts whole seconds, and counters whole
--     amounts, which are all that the code adds. Letters, digits and their cases are those of ASCII, but
--     for the two tests for sensitive names (Contracts, Contracts.Secrets), which are those of Unicode.
--     Errors of the database other than a primary key that is there already are not modelled.
--   * The code outside the repository is a parameter. `Ambient` has the hash of a plan, the public key
--     files and the clock's text that the planner reads, and `Outside` the answers of Runpod, of SSH, of
--     HTTP and of the clock, each a function of all calls made so far, so that every answer may depend on
--     everything that happened. The time limits of single SSH commands are not in the calls. `Host` has
--     the same for the container engine: how each process finishes, the readers of its JSON output, the
--     clock and the process id file. `Scripts` has the texts of shell scripts and JSON files that nodes
--     put into a contract.
--   * Loops over lists are structural. The decimal of n gets n + 1 as fuel. A waiting loop gets one unit of
--     fuel more than the seconds of its time limit (181 for 180 seconds), because each round waits a
--     second or more: Runner.Termination, Runner.Total and Runner.Finished prove for a clock that does
--     not go back that this is enough. The waits of the local runtime get one unit more than their seconds,
--     too, and Local.Waits.Ends and Local.Total prove for a clock that a sleep moves on that this is
--     enough. They take of `time.time()` that it does not go back, which only `time.monotonic()` promises.
--
-- Not modelled: the HTTP requests and GraphQL texts of runpod_client.py, the backends, the HTTP routes, the
-- configuration files, the installation scripts of setup_commands.py, template_admin.py,
-- runpod_options.py and the command-line scripts. They call tools and services, or produce texts for them.
-- Of nodes.py, the declarations of inputs and the nodes that build container images, run a plan and show
-- texts; of local_runtime.py, the printers of YAML and JSON, the files and scripts that it writes, which are
-- one step each that succeeds, and its summaries.
pub mod Base
pub mod Specs
pub mod Contracts
pub mod Templates
pub mod Validation
pub mod Planner
pub mod Names
pub mod Store
pub mod Remote
pub mod Runner
pub mod Nodes
pub mod Local
pub mod Ssh
pub mod Maintenance
mod Examples
