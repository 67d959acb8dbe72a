-- ===== src/Runner/Attempts.antt =====
-- How often a command is run in a pod, and which failures are errors.
use comfyui_runpod_agentic_n.Base.{
  ℕ, zero, suc, ◌+◌, ◌≤◌, String, Bool, true, false, not, ◌||◌, Option, List, [], ◌∷◌, ◌≡◌, refl,
  sym, if◌then◌else◌, arith, is_zero, ◌=ℕ=◌,
}
use comfyui_runpod_agentic_n.Base.Result.{Error, Result, ok, err}
use comfyui_runpod_agentic_n.Planner.Plan.{CommandDetail}
use comfyui_runpod_agentic_n.Store.Rows.{Tables, Payload}
use comfyui_runpod_agentic_n.Remote.Outside.{Call, Outside, CommandResult}
use comfyui_runpod_agentic_n.Remote.Exec.{
  World, Outcome, Exec, returned, raised, unfinished, pure, raise, ask, look, modify, try_store,
  event, continue, stored, uuid, utc_now, ◌>>=◌,
}
use comfyui_runpod_agentic_n.Runner.Commands.{
  is_retry, is_continue, run_attempts, judge, run_ssh_command_action,
}

abbrev cost : Call → ℕ
cost (Call.ssh_run host port command) = 1
cost _ = 0

-- The commands that were run.
abbrev pub runs : List Call → ℕ
runs [] = 0
runs (c ∷ h) = cost c + runs h

-- At most so many more commands are run, and what is returned passes a test.
record IsWithin {A : Type 0} (n : ℕ) (passes : A → Bool) (before : ℕ) (r : Outcome A × World)
    : Type 0 where
  bounded : runs r.1.history ≤ before + n
  passed : (a : A) → r.0 ≡ returned a → passes a ≡ true

abbrev Within : {A : Type 0} → ℕ → (A → Bool) → Exec A → Type 0
Within n passes m = (w : World) → IsWithin n passes (runs w.history) (m w)

abbrev any_value : {A : Type 0} → A → Bool
any_value a = true

module _ {A B : Type 0} where
  continue-Within :
      (a b before : ℕ) (passes : B → Bool) (r : Outcome A × World) (f : A → Exec B)
      → runs r.1.history ≤ before + a
      → ((x : A) → Within b passes (f x))
      → IsWithin (a + b) passes before (continue r f)
  continue-Within a b before passes (returned x, w) f h k = record {
    bounded = omega (arith, (k x w).bounded);
    passed = (k x w).passed;
  }
  continue-Within a b before passes (raised e, w) f h k = record {
    bounded = omega arith;
    passed = λ a e. absurd (cc);
  }
  continue-Within a b before passes (unfinished, w) f h k = record {
    bounded = omega arith;
    passed = λ a e. absurd (cc);
  }

  bind-Within :
      (a b : ℕ) (passes : B → Bool) (m : Exec A) (f : A → Exec B)
      → Within a any_value m
      → ((x : A) → Within b passes (f x))
      → Within (a + b) passes (m >>= f)
  unfolding ◌>>=◌
  bind-Within a b passes m f h k w =
      continue-Within a b (runs w.history) passes (m w) f (h w).bounded k

  -- What runs nothing comes first.
  then-Within :
      (b : ℕ) (passes : B → Bool) (m : Exec A) (f : A → Exec B)
      → Within 0 any_value m
      → ((x : A) → Within b passes (f x))
      → Within b passes (m >>= f)
  then-Within b passes m f h k w = record {
    bounded = omega (arith, (bind-Within 0 b passes m f h k w).bounded);
    passed = (bind-Within 0 b passes m f h k w).passed;
  }

quiet : {A : Type 0} (c : Call) (f : List Call → A) → cost c ≡ 0 → Within 0 any_value (look c f)
quiet c f h w = record { bounded = omega arith; passed = λ a e. refl }

modify-Within : (f : Tables → Tables) → Within 0 any_value (modify f)
modify-Within f w = record { bounded = omega arith; passed = λ a e. refl }

stored-history : (w : World) (r : Result Tables) → (stored w r).1.history ≡ w.history
stored-history w (ok t) = refl
stored-history w (err e) = refl

try_store-Within : (f : Tables → Result Tables) → Within 0 any_value (try_store f)
try_store-Within f w = record {
  bounded = rw (stored-history w (f w.tables)) (omega arith);
  passed = λ a e. refl;
}

event-Within :
    (o : Outside) (run_id event_type message : String) (resource_id : Option String)
    (payload : Payload)
    → Within 0 any_value (event o run_id event_type message resource_id payload)
unfolding event
event-Within o run_id event_type message resource_id payload =
    then-Within 0 any_value (uuid o) _ (quiet _ o.text refl)
      λ id. then-Within 0 any_value (utc_now o) _ (quiet _ o.text refl) λ now. try_store-Within _

returned_injective : {A : Type 0} (a b : A) → returned a ≡ returned b → a ≡ b
returned_injective a b e = cc

-- How many attempts a command has: further ones only if its policy is to retry.
abbrev pub attempts_of : CommandDetail → ℕ → ℕ
attempts_of c left = if is_retry c.failure_policy then left else 0

abbrev again : CommandDetail → ℕ → Bool
again c left = not (not (is_retry c.failure_policy) || left =ℕ= 0)

module _ (o : Outside) where
  ask-Within :
      (host : String) (port : ℕ) (command : String)
      → Within 1 any_value (ask (Call.ssh_run host port command) o.command)
  ask-Within host port command w = record { bounded = omega arith; passed = λ a e. refl }

  more-Within :
      {A : Type 0} (n m : ℕ) (passes : A → Bool) (f : Exec A)
      → n ≤ m
      → Within n passes f
      → Within m passes f
  more-Within n m passes f h k w = record {
    bounded = omega (arith, (k w).bounded);
    passed = (k w).passed;
  }

  pure-Within :
      {A : Type 0} (n : ℕ) (passes : A → Bool) (a : A) → passes a ≡ true → Within n passes (pure a)
  pure-Within n passes a h w = record {
    bounded = omega arith;
    passed = λ b e. rw (sym (returned_injective a b e)) h;
  }

  raise-Within : {A : Type 0} (n : ℕ) (passes : A → Bool) (e : Error) → Within n passes (raise e)
  raise-Within n passes e w = record { bounded = omega arith; passed = λ a h. absurd (cc) }

  if-Within :
      {A : Type 0} (n : ℕ) (passes : A → Bool) (b : Bool) (f g : Exec A)
      → (b ≡ true → Within n passes f)
      → (b ≡ false → Within n passes g)
      → Within n passes (if b then f else g)
  if-Within n passes true f g h k = h refl
  if-Within n passes false f g h k = k refl

  -- One attempt, with a bound for what comes after it.
  attempt-Within :
      (left attempt : ℕ) (run_id host : String) (port : ℕ) (c : CommandDetail)
      → (again c left ≡ true
          → Within
              (attempts_of c left)
              any_value
              (run_attempts o left (attempt + 1) run_id host port c))
      → Within
          (1 + attempts_of c left)
          any_value
          (run_attempts o (suc left) attempt run_id host port c)
  unfolding run_attempts
  attempt-Within left attempt run_id host port c rest =
      bind-Within 1 (attempts_of c left) any_value _ _ (ask-Within host port c.command) λ result.
        if-Within _ any_value (is_zero result.exit_code) _ _
          (λ e. pure-Within _ any_value result refl)
          (λ e.
            if-Within _ any_value (not (is_retry c.failure_policy) || left =ℕ= 0) _ _
              (λ f. pure-Within _ any_value result refl)
              (λ f. then-Within (attempts_of c left) any_value _ _ (event-Within o _ _ _ _ _) λ _.
                then-Within (attempts_of c left) any_value _ _ (quiet (Call.sleep 1) _ refl)
                  λ _. rest (ground arith)))

  run_attempts-Within :
      (left attempt : ℕ) (run_id host : String) (port : ℕ) (c : CommandDetail)
      → Within
          (1 + attempts_of c left)
          any_value
          (run_attempts o (suc left) attempt run_id host port c)
  run_attempts-Within zero attempt run_id host port c =
      attempt-Within zero attempt run_id host port c (λ f. absurd (ground arith))
  run_attempts-Within (suc left) attempt run_id host port c =
      attempt-Within (suc left) attempt run_id host port c λ f.
        more-Within (1 + attempts_of c left) (attempts_of c (suc left)) any_value _ (ground arith)
          (run_attempts-Within left (attempt + 1) run_id host port c)

abbrev passes : CommandDetail → CommandResult → Bool
passes c result = is_zero result.exit_code || is_continue c.failure_policy

module _ (o : Outside) where
  judge-Within :
      (c : CommandDetail) (result : CommandResult) → Within 0 (passes c) (judge o c result)
  judge-Within c result =
      if-Within o 0 (passes c) (passes c result) _ _ (λ e. pure-Within o 0 (passes c) result e)
        (λ e. raise-Within o 0 (passes c) _)

  run_ssh_command_action-Within :
      (run_id host : String) (port : ℕ) (resource_id : Option String) (c : CommandDetail)
      → Within
          ((1 + attempts_of c c.retry_count) + 0)
          (passes c)
          (run_ssh_command_action o run_id host port resource_id c)
  unfolding run_ssh_command_action
  run_ssh_command_action-Within run_id host port resource_id c =
      then-Within _ (passes c) _ _ (quiet _ _ refl) λ _.
        then-Within _ (passes c) _ _ (quiet _ o.text refl) λ command_id.
          then-Within _ (passes c) _ _ (quiet _ o.text refl) λ now.
            then-Within _ (passes c) _ _ (try_store-Within _) λ _.
              bind-Within (1 + attempts_of c c.retry_count) 0 (passes c) _ _
                (run_attempts-Within o c.retry_count 0 run_id host port c)
                λ result. then-Within 0 (passes c) _ _ (quiet _ _ refl) λ _.
                  then-Within 0 (passes c) _ _ (quiet _ _ refl) λ _.
                    then-Within 0 (passes c) _ _ (quiet _ o.text refl) λ later.
                      then-Within 0 (passes c) _ _ (modify-Within _) λ _.
                        then-Within 0 (passes c) _ _ (event-Within o _ _ _ _ _)
                          λ _. judge-Within c result

-- What is known of the running of a command.
pub record IsBounded (o : Outside) (c : CommandDetail) (before : ℕ)
    (r : Outcome CommandResult × World) : Type 0 where
  pub bounded : runs r.1.history ≤ before + (1 + attempts_of c c.retry_count)
  pub judged :
      (result : CommandResult)
      → r.0 ≡ returned result
      → (is_zero result.exit_code || is_continue c.failure_policy) ≡ true

-- A command whose policy is to retry is run at most once more than its retries, any other command at most
-- once; and a result that is returned has the exit code zero or a policy to continue, so that any other
-- failure is raised.
pub run_ssh_command_action-IsBounded :
    (o : Outside) (run_id host : String) (port : ℕ) (resource_id : Option String)
    (c : CommandDetail) (w : World)
    → IsBounded o c (runs w.history) (run_ssh_command_action o run_id host port resource_id c w)
run_ssh_command_action-IsBounded o run_id host port resource_id c w =
    let r = run_ssh_command_action-Within o run_id host port resource_id c w in
    record { bounded = omega (arith, r.bounded); judged = r.passed }
