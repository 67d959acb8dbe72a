-- ===== src/Maintenance/Laws.antt =====
-- Which pods are ended, and how often it is tried.
use comfyui_runpod_agentic_n.Base.{
  ℕ, zero, suc, ◌+◌, ◌*◌, ◌≤◌, String, some, List, [], ◌∷◌, map, if◌then◌else◌, ◌≡◌, refl,
  Bool-cases, ◌⊎◌, inl, inr, arith, select, ℤ,
}
use comfyui_runpod_agentic_n.Base.Sort.{All}
use comfyui_runpod_agentic_n.Base.Result.{Error, Result, ok, err}
use comfyui_runpod_agentic_n.Specs.{LimitAction}
use comfyui_runpod_agentic_n.Remote.Pod.{Pod, Slot, absent, null, held, seen}
use comfyui_runpod_agentic_n.Maintenance.{
  Call, end_pod, sleep, Affected, has_name, id_of, end_each, cleanup_managed_pods, from_zero,
  try_each, apply_runpod_lifecycle, pause, is_client_error,
}

-- A pod has the key `id`.
abbrev pub IsThere : Slot String → Type 0
IsThere absent = ⊥
IsThere null = Unit
IsThere (held id) = Unit

abbrev pub HasId : Pod → Type 0
HasId pod = IsThere pod.id

id_of-seen : (s : Slot String) → IsThere s → id_of s ≡ ok (seen s)
unfolding id_of
id_of-seen absent h = absurd h
id_of-seen null h = refl
id_of-seen (held id) h = refl

abbrev pub affected_of : LimitAction → Pod → Affected
affected_of action pod = record { id = seen pod.id; name = seen pod.name; action = action }

-- The calls for some pods, in order, onto those that were made before.
abbrev pub ended : LimitAction → List Pod → List Call → List Call
ended action [] calls = calls
ended action (pod ∷ pods) calls = ended action pods (end_pod action (seen pod.id) ∷ calls)

module _ (answer : List Call → Result (Unit {0}))
    (accepts : (h : List Call) → answer h ≡ ok tt) where
  end_each_lem :
      (action : LimitAction) (prefix : String) (pods : List Pod) (calls : List Call)
      → All HasId (select (has_name prefix) pods)
      → end_each answer action prefix pods calls ≡ (
        ok (map (affected_of action) (select (has_name prefix) pods)),
        ended action (select (has_name prefix) pods) calls,
      )
  unfolding end_each select
  end_each_lem action prefix [] calls a = refl
  end_each_lem action prefix (pod ∷ pods) calls a = elim (Bool-cases (has_name prefix pod)) [
    | inl e ↦
        let b : All HasId (pod ∷ select (has_name prefix) pods) = rw e at a in
        rw (
          e,
          id_of-seen pod.id b.0,
          accepts (end_pod action (seen pod.id) ∷ calls),
          end_each_lem action prefix pods (end_pod action (seen pod.id) ∷ calls) b.1,
        )
    | inr e ↦
        let b : All HasId (select (has_name prefix) pods) = rw e at a in
        rw (e, end_each_lem action prefix pods calls b)
  ]

  -- If every listed pod whose name has the prefix has an id, and Runpod accepts every call, then exactly
  -- those pods are ended, each once and in the order of the list, and they are returned.
  pub cleanup_managed_pods_lem :
      (action : LimitAction) (prefix : String) (pods : List Pod)
      → All HasId (select (has_name prefix) pods)
      → cleanup_managed_pods answer action prefix (ok pods) ≡ (
        ok (map (affected_of action) (select (has_name prefix) pods)),
        ended action (select (has_name prefix) pods) [],
      )
  unfolding cleanup_managed_pods
  cleanup_managed_pods_lem action prefix pods a = end_each_lem action prefix pods [] a

abbrev pub calls_in : List Call → ℕ
calls_in [] = 0
calls_in (end_pod action id ∷ h) = 1 + calls_in h
calls_in (sleep n ∷ h) = calls_in h

abbrev pub slept_in : List Call → ℕ
slept_in [] = 0
slept_in (end_pod action id ∷ h) = slept_in h
slept_in (sleep n ∷ h) = n + slept_in h

-- What is known when the attempt `n` succeeds.
pub record Succeeds (before after : List Call) (attempt n : ℕ) : Type 0 where
  pub counted : calls_in after + attempt ≡ calls_in before + n + 1
  pub paused : slept_in after + 3 * attempt ≡ slept_in before + 3 * n

abbrev pub Ended :
    (List Call → Result (Unit {0})) → ℕ → ℕ → List Call → Result ℕ × List Call → Type 0
Ended answer left attempt before (ok n, after) = Succeeds before after attempt n
Ended answer left attempt before (err e, after) =
    (calls_in after ≡ calls_in before + left) ⊎ (answer after ≡ err e)

pub record IsTried (answer : List Call → Result (Unit {0})) (left attempt : ℕ) (before : List Call)
    (r : Result ℕ × List Call) : Type 0 where
  pub bounded : calls_in r.1 ≤ calls_in before + left
  pub ending : Ended answer left attempt before r

module _ (answer : List Call → Result (Unit {0})) where
  -- What holds after one more call and a pause holds with them.
  Ended-earlier :
      (left attempt : ℕ) (before slept : List Call) (r : Result ℕ × List Call)
      → calls_in slept ≡ calls_in before + 1
      → slept_in slept ≡ slept_in before + 3
      → Ended answer left (attempt + 1) slept r
      → Ended answer (suc left) attempt before r
  Ended-earlier left attempt before slept (ok n, after) h k e = record {
    counted = omega (arith, e.counted);
    paused = omega (arith, e.paused);
  }
  Ended-earlier left attempt before slept (err x, after) h k (inl e) = inl (omega arith)
  Ended-earlier left attempt before slept (err x, after) h k (inr e) = inr e

  IsTried-earlier :
      (left attempt : ℕ) (before slept : List Call) (r : Result ℕ × List Call)
      → calls_in slept ≡ calls_in before + 1
      → slept_in slept ≡ slept_in before + 3
      → IsTried answer left (attempt + 1) slept r
      → IsTried answer (suc left) attempt before r
  IsTried-earlier left attempt before slept r h k t = record {
    bounded = omega (arith, t.bounded);
    ending = Ended-earlier left attempt before slept r h k t.ending;
  }

  Result-cases : (r : Result (Unit {0})) → (r ≡ ok tt) ⊎ ((e : Error) × (r ≡ err e))
  Result-cases (ok u) = inl refl
  Result-cases (err e) = inr (e, refl)

  -- After a failed attempt.
  failed-IsTried :
      (left attempt : ℕ) (action : LimitAction) (pod_id : String) (calls : List Call) (e : Error)
      → let made = end_pod action (some pod_id) ∷ calls in
        answer made ≡ err e
        → ((slept : List Call)
            → IsTried answer left
                (attempt + 1)
                slept
                (try_each answer left (attempt + 1) action pod_id e.message slept))
        → IsTried answer (suc left) attempt calls (
            if is_client_error e
            then try_each answer left (attempt + 1) action pod_id e.message (pause left made)
            else (err e, made))
  unfolding try_each
  failed-IsTried left attempt action pod_id calls e h rest = elim (Bool-cases (is_client_error e)) [
    | inr n ↦ rw n (record { bounded = omega arith; ending = inr h })
    | inl y ↦ rw y (last left rest)
  ]
    where
      last :
          (left : ℕ)
          → ((slept : List Call)
              → IsTried answer left
                  (attempt + 1)
                  slept
                  (try_each answer left (attempt + 1) action pod_id e.message slept))
          → IsTried answer (suc left) attempt calls (
              try_each answer left
                (attempt + 1)
                action
                pod_id
                e.message
                (pause left (end_pod action (some pod_id) ∷ calls)))
      last zero rest = record { bounded = omega arith; ending = inl (omega arith) }
      last (suc left) rest =
          IsTried-earlier (suc left) attempt calls (sleep 3 ∷ end_pod action (some pod_id) ∷ calls)
            _ (omega arith) (omega arith) (rest (sleep 3 ∷ end_pod action (some pod_id) ∷ calls))

  try_each-IsTried :
      (left attempt : ℕ) (action : LimitAction) (pod_id last_error : String) (calls : List Call)
      → IsTried answer left attempt calls
          (try_each answer left attempt action pod_id last_error calls)
  unfolding try_each
  try_each-IsTried zero attempt action pod_id last_error calls = record {
    bounded = omega arith;
    ending = inl (omega arith);
  }
  try_each-IsTried (suc left) attempt action pod_id last_error calls =
      elim (Result-cases (answer (end_pod action (some pod_id) ∷ calls))) [
        | inl h ↦ rw h (record {
          bounded = omega arith;
          ending = record { counted = omega arith; paused = omega arith };
        })
        | inr (e, h) ↦ rw h (
            failed-IsTried left attempt action pod_id calls e h
              (λ slept. try_each-IsTried left (attempt + 1) action pod_id e.message slept))
      ]

  -- Applying the delayed action calls Runpod at most as often as it is allowed attempts. If attempt n
  -- succeeds, n calls were made and three seconds were slept between two of them, after the delay. If it
  -- raises, all attempts were made or the last answer was the exception itself.
  pub apply_runpod_lifecycle-IsTried :
      (pod_id : String) (action : LimitAction) (delay_seconds : ℤ) (attempts : ℕ)
      → IsTried answer attempts 1
          (sleep (from_zero delay_seconds) ∷ [])
          (apply_runpod_lifecycle answer pod_id action delay_seconds attempts)
  unfolding apply_runpod_lifecycle
  apply_runpod_lifecycle-IsTried pod_id action delay_seconds attempts =
      try_each-IsTried attempts 1 action pod_id "" (sleep (from_zero delay_seconds) ∷ [])
