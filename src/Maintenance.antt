-- ===== src/Maintenance.antt =====
-- cleanup.py and keepalive_timer.py: ending pods apart from a run. What Runpod answers is a function of
-- all calls so far, the newest first.
pub mod Laws
use comfyui_runpod_agentic_n.Base.{
  ℕ, zero, suc, ◌+◌, String, ◌<>◌, Bool, true, false, Option, none, some, List, [], ◌∷◌,
  if◌then◌else◌, value_or, starts_with, ℤ, pos, negsuc, ◌=ℕ=◌,
}
use comfyui_runpod_agentic_n.Base.Result.{
  Error, ErrorKind, Result, ok, err, key_error, runtime_error, runpod_client_error,
}
use comfyui_runpod_agentic_n.Specs.{LimitAction}
use comfyui_runpod_agentic_n.Remote.Pod.{Pod, Slot, absent, null, held, seen, seen_or}

-- A pod's id is what `pod["id"]` holds, which may be null.
pub data Call : Type 0 where
  end_pod : LimitAction → Option String → Call
  sleep : ℕ → Call

pub record Affected : Type 0 where
  pub id : Option String
  pub name : Option String
  pub action : LimitAction

-- `str(pod.get("name", "")).startswith(prefix)`
unfoldable pub has_name : String → Pod → Bool
has_name prefix pod = starts_with (value_or (seen_or pod.name "") "None") prefix

-- `pod["id"]`
unfoldable pub id_of : Slot String → Result (Option String)
id_of absent = err (record { kind = key_error; message = "'id'" })
id_of null = ok none
id_of (held id) = ok (some id)

abbrev pub prepend :
    Affected → Result (List Affected) × List Call → Result (List Affected) × List Call
prepend a (ok rows, calls) = (ok (a ∷ rows), calls)
prepend a (err e, calls) = (err e, calls)

-- What follows the answer to a call.
abbrev pub after_call :
    Result (Unit {0})
    → Affected
    → List Call
    → Result (List Affected) × List Call
    → Result (List Affected) × List Call
after_call (ok u) a calls rest = prepend a rest
after_call (err e) a calls rest = (err e, calls)

abbrev pub is_client_error : Error → Bool
is_client_error e = elim e.kind [ runpod_client_error ↦ true | _ ↦ false ]

abbrev action_text : LimitAction → String
action_text LimitAction.stop = "stop"
action_text LimitAction.terminate = "terminate"

abbrev failure : LimitAction → String → String → Result ℕ
failure action pod_id last_error = err (record {
  kind = runtime_error;
  message =
      "Runpod keep-alive "
      <> (action_text action <> (" failed for pod " <> (pod_id <> (": " <> last_error))));
})

abbrev pub pause : ℕ → List Call → List Call
pause zero made = made
pause (suc left) made = sleep 3 ∷ made

-- `max(0, int(delay_seconds))`
abbrev pub from_zero : ℤ → ℕ
from_zero (pos n) = n
from_zero (negsuc n) = 0

module _ (answer : List Call → Result (Unit {0})) where
  -- The loop over the pods that are listed.
  unfoldable pub end_each :
      LimitAction → String → List Pod → List Call → Result (List Affected) × List Call
  end_each action prefix [] calls = (ok [], calls)
  end_each action prefix (pod ∷ pods) calls =
      let others = end_each action prefix pods calls in
      if has_name prefix pod
      then elim (id_of pod.id) [
        | err e ↦ (err e, calls)
        | ok id ↦
            let made = end_pod action id ∷ calls in
            let rest = end_each action prefix pods made in
            after_call (answer made) (record { id = id; name = seen pod.name; action = action })
              made rest
      ]
      else others

  unfoldable pub cleanup_managed_pods :
      LimitAction → String → Result (List Pod) → Result (List Affected) × List Call
  unfolding end_each
  cleanup_managed_pods action prefix (err e) = (err e, [])
  cleanup_managed_pods action prefix (ok pods) = end_each action prefix pods []

  abbrev pub after_try :
      Result (Unit {0}) → ℕ → List Call → (Error → Result ℕ × List Call) → Result ℕ × List Call
  after_try (ok u) attempt made retry = (ok attempt, made)
  after_try (err e) attempt made retry =
      let later = retry e in if is_client_error e then later else (err e, made)

  -- The loop over the attempts, of which `left` are left; the result is the attempt that succeeded.
  unfoldable pub try_each : ℕ → ℕ → LimitAction → String → String → List Call → Result ℕ × List Call
  try_each zero attempt action pod_id last_error calls = (failure action pod_id last_error, calls)
  try_each (suc left) attempt action pod_id last_error calls =
      let made = end_pod action (some pod_id) ∷ calls in
      after_try (answer made) attempt made
        (λ e. try_each left (attempt + 1) action pod_id e.message (pause left made))

  unfoldable pub apply_runpod_lifecycle : String → LimitAction → ℤ → ℕ → Result ℕ × List Call
  unfolding try_each
  apply_runpod_lifecycle pod_id action delay_seconds attempts =
      try_each attempts 1 action pod_id "" (sleep (from_zero delay_seconds) ∷ [])
