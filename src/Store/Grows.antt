-- ===== src/Store/Grows.antt =====
-- state_store.py: what no sequence of calls of the store's methods loses of the resources, the commands, the
-- events and the counters.
use comfyui_runpod_agentic_n.Base.{
  ℕ, ◌+◌, ◌≤◌, String, ◌≡◌, refl, ◌∙◌, Option, none, some, List, ◌∷◌, ◌++◌, [], arith, ℤ,
}
use comfyui_runpod_agentic_n.Base.Result.{ok}
use comfyui_runpod_agentic_n.Store.Rows.{
  Payload, ResourceRow, CommandRow, EventRow, CounterRow, Tables,
}
use comfyui_runpod_agentic_n.Store.Table.{find}
use comfyui_runpod_agentic_n.Store.Operations.{
  record_run, record_resource, resource_row, set_resource, record_remote_resource, remote_row,
  start_command, command_row, event_row, finish_command, finish_row, add_event, increment_counter,
  counter_key, counter_value, counter_row, set_counter, mark_resource_status, mark_row,
}
use comfyui_runpod_agentic_n.Store.Reachable.{Step, Steps}
use comfyui_runpod_agentic_n.Store.Stays.{
  AllStay, IsOrder, AllStay-refl, AllStay-trans, upsert-AllStay, update_row-AllStay, append-AllStay,
}

-- The columns of a resource that no method changes.
pub record IsSameResource (old new : ResourceRow) : Type 0 where
  pub run : new.run_id ≡ old.run_id
  pub node : new.node_id ≡ old.node_id
  pub role : new.role ≡ old.role
  pub hash : new.desired_hash ≡ old.desired_hash
  pub template : new.runpod_template_id ≡ old.runpod_template_id
  pub name : new.name ≡ old.name
  pub created : new.created_at ≡ old.created_at
  pub stops : new.stop_after ≡ old.stop_after
  pub terminates : new.terminate_after ≡ old.terminate_after

-- The columns of a command that no method changes.
pub record IsSameCommand (old new : CommandRow) : Type 0 where
  pub run : new.run_id ≡ old.run_id
  pub resource : new.resource_id ≡ old.resource_id
  pub phase : new.phase ≡ old.phase
  pub order : new.order_index ≡ old.order_index
  pub hash : new.command_hash ≡ old.command_hash
  pub started : new.started_at ≡ old.started_at
  pub stdout : new.stdout_path ≡ old.stdout_path
  pub stderr : new.stderr_path ≡ old.stderr_path

-- A counter goes up only, and counts the same.
pub record IsCountedOn (old new : CounterRow) : Type 0 where
  pub run : new.run_id ≡ old.run_id
  pub resource : new.resource_id ≡ old.resource_id
  pub counter : new.counter_type ≡ old.counter_type
  pub value : old.value ≤ new.value

abbrev IsSameEvent : EventRow → EventRow → Type 0
IsSameEvent old new = new ≡ old

pub record Grows (t u : Tables) : Type 0 where
  pub resources : AllStay ResourceRow.id IsSameResource t.resources u.resources
  pub commands : AllStay CommandRow.id IsSameCommand t.commands u.commands
  pub events : AllStay EventRow.id IsSameEvent t.events u.events
  pub counters : AllStay CounterRow.id IsCountedOn t.counters u.counters

seen_again : (old row : ResourceRow) → IsSameResource old (set_resource row old)
seen_again old row = record {
  run = refl;
  node = refl;
  role = refl;
  hash = refl;
  template = refl;
  name = refl;
  created = refl;
  stops = refl;
  terminates = refl;
}

marked_same :
    (now status : String) (old : ResourceRow) → IsSameResource old (mark_row now status old)
marked_same now status old = record {
  run = refl;
  node = refl;
  role = refl;
  hash = refl;
  template = refl;
  name = refl;
  created = refl;
  stops = refl;
  terminates = refl;
}

resource_order : IsOrder IsSameResource
resource_order = record {
  same = λ a. record {
    run = refl;
    node = refl;
    role = refl;
    hash = refl;
    template = refl;
    name = refl;
    created = refl;
    stops = refl;
    terminates = refl;
  };
  joins = λ a b c h k. record {
    run = k.run ∙ h.run;
    node = k.node ∙ h.node;
    role = k.role ∙ h.role;
    hash = k.hash ∙ h.hash;
    template = k.template ∙ h.template;
    name = k.name ∙ h.name;
    created = k.created ∙ h.created;
    stops = k.stops ∙ h.stops;
    terminates = k.terminates ∙ h.terminates;
  };
}

finished_same :
    (now status : String) (code : ℤ) (old : CommandRow)
    → IsSameCommand old (finish_row now status code old)
finished_same now status code old = record {
  run = refl;
  resource = refl;
  phase = refl;
  order = refl;
  hash = refl;
  started = refl;
  stdout = refl;
  stderr = refl;
}

command_order : IsOrder IsSameCommand
command_order = record {
  same = λ a. record {
    run = refl;
    resource = refl;
    phase = refl;
    order = refl;
    hash = refl;
    started = refl;
    stdout = refl;
    stderr = refl;
  };
  joins = λ a b c h k. record {
    run = k.run ∙ h.run;
    resource = k.resource ∙ h.resource;
    phase = k.phase ∙ h.phase;
    order = k.order ∙ h.order;
    hash = k.hash ∙ h.hash;
    started = k.started ∙ h.started;
    stdout = k.stdout ∙ h.stdout;
    stderr = k.stderr ∙ h.stderr;
  };
}

event_order : IsOrder IsSameEvent
event_order = record { same = λ a. refl; joins = λ a b c h k. k ∙ h }

counter_order : IsOrder IsCountedOn
counter_order = record {
  same = λ a. record { run = refl; resource = refl; counter = refl; value = omega arith };
  joins = λ a b c h k. record {
    run = k.run ∙ h.run;
    resource = k.resource ∙ h.resource;
    counter = k.counter ∙ h.counter;
    value = omega (arith, h.value, k.value);
  };
}

Grows-refl : (t : Tables) → Grows t t
Grows-refl t = record {
  resources = AllStay-refl ResourceRow.id IsSameResource resource_order t.resources;
  commands = AllStay-refl CommandRow.id IsSameCommand command_order t.commands;
  events = AllStay-refl EventRow.id IsSameEvent event_order t.events;
  counters = AllStay-refl CounterRow.id IsCountedOn counter_order t.counters;
}

Grows-trans : (t u v : Tables) → Grows t u → Grows u v → Grows t v
Grows-trans t u v h k = record {
  resources =
      AllStay-trans ResourceRow.id IsSameResource resource_order _ _ _ h.resources k.resources;
  commands = AllStay-trans CommandRow.id IsSameCommand command_order _ _ _ h.commands k.commands;
  events = AllStay-trans EventRow.id IsSameEvent event_order _ _ _ h.events k.events;
  counters = AllStay-trans CounterRow.id IsCountedOn counter_order _ _ _ h.counters k.counters;
}

start_command-commands :
    (uuid now run_id : String) (resource_id : Option String) (phase : String) (order_index : ℤ)
    (command_hash stdout_path stderr_path : String) (t u : Tables)
    → start_command uuid now run_id resource_id phase order_index command_hash stdout_path
        stderr_path t
      ≡ ok u
    → let row =
        command_row uuid now run_id resource_id phase order_index command_hash stdout_path
          stderr_path in
      (find CommandRow.id t.commands uuid ≡ none)
      × (u ≡ record t { commands = t.commands ++ row ∷ [] })
unfolding start_command
start_command-commands uuid now run_id resource_id phase order_index command_hash stdout_path
      stderr_path t u h =
    (ground arith, ground arith)

add_event-events :
    (uuid now run_id event_type message : String) (resource_id : Option String) (payload : Payload)
    (t u : Tables)
    → add_event uuid now run_id event_type message resource_id payload t ≡ ok u
    → let row = event_row uuid now run_id event_type message resource_id payload in
      (find EventRow.id t.events uuid ≡ none) × (u ≡ record t { events = t.events ++ row ∷ [] })
unfolding add_event
add_event-events uuid now run_id event_type message resource_id payload t u h =
    (ground arith, ground arith)

counted_on :
    (now run_id counter_type : String) (amount : ℕ) (resource_id : Option String)
    (rows : List CounterRow) (old : CounterRow)
    → find CounterRow.id rows (counter_key run_id counter_type resource_id) ≡ some old
    → IsCountedOn old (
        set_counter
          (counter_row now run_id counter_type resource_id
            (counter_value rows (counter_key run_id counter_type resource_id) + amount))
          old)
counted_on now run_id counter_type amount resource_id rows old f = record {
  run = refl;
  resource = refl;
  counter = refl;
  value = ground (arith, f);
}

-- A method that writes to one table.
module _ (t : Tables) where
  resources-Grows :
      (rows : List ResourceRow)
      → AllStay ResourceRow.id IsSameResource t.resources rows
      → Grows t (record t { resources = rows })
  resources-Grows rows h = record {
    resources = h;
    commands = AllStay-refl CommandRow.id IsSameCommand command_order t.commands;
    events = AllStay-refl EventRow.id IsSameEvent event_order t.events;
    counters = AllStay-refl CounterRow.id IsCountedOn counter_order t.counters;
  }

  commands-Grows :
      (rows : List CommandRow)
      → AllStay CommandRow.id IsSameCommand t.commands rows
      → Grows t (record t { commands = rows })
  commands-Grows rows h = record {
    resources = AllStay-refl ResourceRow.id IsSameResource resource_order t.resources;
    commands = h;
    events = AllStay-refl EventRow.id IsSameEvent event_order t.events;
    counters = AllStay-refl CounterRow.id IsCountedOn counter_order t.counters;
  }

  events-Grows :
      (rows : List EventRow)
      → AllStay EventRow.id IsSameEvent t.events rows
      → Grows t (record t { events = rows })
  events-Grows rows h = record {
    resources = AllStay-refl ResourceRow.id IsSameResource resource_order t.resources;
    commands = AllStay-refl CommandRow.id IsSameCommand command_order t.commands;
    events = h;
    counters = AllStay-refl CounterRow.id IsCountedOn counter_order t.counters;
  }

  counters-Grows :
      (rows : List CounterRow)
      → AllStay CounterRow.id IsCountedOn t.counters rows
      → Grows t (record t { counters = rows })
  counters-Grows rows h = record {
    resources = AllStay-refl ResourceRow.id IsSameResource resource_order t.resources;
    commands = AllStay-refl CommandRow.id IsSameCommand command_order t.commands;
    events = AllStay-refl EventRow.id IsSameEvent event_order t.events;
    counters = h;
  }

Step-Grows : (t u : Tables) → Step t u → Grows t u
unfolding record_run record_resource record_remote_resource finish_command increment_counter
    mark_resource_status
Step-Grows t _ (Step.runs now run_id workflow_hash deployment_hash mode status prompt_id) =
    let same = Grows-refl t in
    record {
      resources = same.resources;
      commands = same.commands;
      events = same.events;
      counters = same.counters;
    }
Step-Grows t _ (Step.resources now run_id resource pod status) = resources-Grows t _ (
    upsert-AllStay ResourceRow.id IsSameResource resource_order set_resource
      (resource_row now run_id resource pod status) t.resources (λ old. refl)
      (λ old f. seen_again old (resource_row now run_id resource pod status)))
Step-Grows t _ (Step.remote now pod run_id) = resources-Grows t _ (
    upsert-AllStay ResourceRow.id IsSameResource resource_order set_resource
      (remote_row now run_id pod) t.resources (λ old. refl)
      (λ old f. seen_again old (remote_row now run_id pod)))
Step-Grows t u
      (Step.started uuid now run_id resource_id phase order_index command_hash stdout_path
        stderr_path _ h) =
    let p =
      start_command-commands uuid now run_id resource_id phase order_index command_hash stdout_path
        stderr_path t u h in
    rw p.1 (
      commands-Grows t _
        (append-AllStay CommandRow.id IsSameCommand command_order t.commands _ p.0))
Step-Grows t _ (Step.finished now command_id status exit_code) = commands-Grows t _ (
    update_row-AllStay CommandRow.id IsSameCommand command_order (finish_row now status exit_code)
      command_id t.commands (λ old. refl) (finished_same now status exit_code))
Step-Grows t u (Step.event uuid now run_id event_type message resource_id payload _ h) =
    let p = add_event-events uuid now run_id event_type message resource_id payload t u h in
    rw p.1 (events-Grows t _ (append-AllStay EventRow.id IsSameEvent event_order t.events _ p.0))
Step-Grows t _ (Step.counted now run_id counter_type amount resource_id) = counters-Grows t _ (
    upsert-AllStay CounterRow.id IsCountedOn counter_order set_counter
      (counter_row now run_id counter_type resource_id
        (counter_value t.counters (counter_key run_id counter_type resource_id) + amount))
      t.counters (λ old. refl) (counted_on now run_id counter_type amount resource_id t.counters))
Step-Grows t _ (Step.marked now resource_id status) = resources-Grows t _ (
    update_row-AllStay ResourceRow.id IsSameResource resource_order (mark_row now status)
      resource_id t.resources (λ old. refl) (marked_same now status))

-- Along every sequence of calls no row of the four tables is lost. A resource keeps its run, node, role,
-- hash, template, name, time of creation and deadlines; a command keeps all that it was started with; an
-- event stays as it is; and a counter keeps what it counts, and its value never goes down.
pub Steps-Grows : (t u : Tables) → Steps t u → Grows t u
Steps-Grows t _ Steps.done = Grows-refl t
Steps-Grows t _ (Steps.then u v steps step) =
    Grows-trans t u v (Steps-Grows t u steps) (Step-Grows u v step)
