-- ===== src/Remote/Exec.antt =====
-- Methods that call the surroundings, write to the store, and may raise. What was done before a raise
-- stays done. A loop that has no fuel left is `unfinished`, which is no outcome of the code.
use comfyui_runpod_agentic_n.Base.{ℕ, String, Option, none, some, List, [], ◌∷◌}
use comfyui_runpod_agentic_n.Base.Result.{Error, ErrorKind, Result, ok, err}
use comfyui_runpod_agentic_n.Store.Rows.{Tables, Payload}
use comfyui_runpod_agentic_n.Store.Operations.{add_event}
use comfyui_runpod_agentic_n.Remote.Outside.{Call, Outside}

pub record World : Type 0 where
  pub tables : Tables
  pub history : List Call

pub data Outcome {ℓ} (A : Type ℓ) : Type ℓ where
  returned : A → Outcome A
  raised : Error → Outcome A
  unfinished : Outcome A

abbrev pub Exec {ℓ} : Type ℓ → Type ℓ
Exec A = World → Outcome A × World

module _ {ℓ} {A : Type ℓ} where
  abbrev pub pure : A → Exec A
  pure a w = (returned a, w)

  abbrev pub raise : Error → Exec A
  raise e w = (raised e, w)

  abbrev pub out_of_fuel : Exec A
  out_of_fuel w = (unfinished, w)

  abbrev pub outcome : Result A → Outcome A
  outcome (ok a) = returned a
  outcome (err e) = raised e

  abbrev pub lift : Result A → Exec A
  lift r w = (outcome r, w)

  -- `raise RuntimeError(message)`
  abbrev pub fail : String → Exec A
  fail message = raise (record { kind = ErrorKind.runtime_error; message = message })

  -- The call is made, and its answer may be an exception.
  abbrev pub ask : Call → (List Call → Result A) → Exec A
  ask call answer w =
      let history = call ∷ w.history in
      (outcome (answer history), record { tables = w.tables; history = history })

  -- The same for an answer that is always there.
  abbrev pub look : Call → (List Call → A) → Exec A
  look call answer w =
      let history = call ∷ w.history in
      (returned (answer history), record { tables = w.tables; history = history })

module _ {ℓ κ} {A : Type ℓ} {B : Type κ} where
  abbrev pub continue : Outcome A × World → (A → Exec B) → Outcome B × World
  continue (returned a, w) f = f a w
  continue (raised e, w) f = (raised e, w)
  continue (unfinished, w) f = (unfinished, w)

  infixl 5 ◌>>=◌ ◌>>◌
  unfoldable pub ◌>>=◌ : Exec A → (A → Exec B) → Exec B
  ◌>>=◌ m f w = continue (m w) f

  abbrev pub ◌>>◌ : Exec A → Exec B → Exec B
  m >> n = m >>= λ _. n

module _ {ℓ} {A : Type ℓ} where
  abbrev pub handle : Outcome A × World → (Error → Exec A) → Outcome A × World
  handle (returned a, w) f = (returned a, w)
  handle (raised e, w) f = f e w
  handle (unfinished, w) f = (unfinished, w)

  -- `try: m except Exception as e: f(e)`
  unfoldable pub attempt : Exec A → (Error → Exec A) → Exec A
  attempt m f w = handle (m w) f

abbrev pub done : Exec (Unit {0})
done = pure tt

-- What a method of the store does to the tables.
abbrev pub modify : (Tables → Tables) → Exec (Unit {0})
modify f w = (returned tt, record { tables = f w.tables; history = w.history })

abbrev pub store : {A : Type 0} → (Tables → A × Tables) → Exec A
store f w =
    let (a, tables) = f w.tables in (returned a, record { tables = tables; history = w.history })

abbrev pub stored : World → Result Tables → Outcome (Unit {0}) × World
stored w (ok tables) = (returned tt, record { tables = tables; history = w.history })
stored w (err e) = (raised e, w)

abbrev pub try_store : (Tables → Result Tables) → Exec (Unit {0})
try_store f w = stored w (f w.tables)

abbrev pub read : {A : Type 0} → (Tables → A) → Exec A
read f w = (returned (f w.tables), w)

-- The value's method, or the first one if there is none.
abbrev pub on_some : {A B : Type 0} → Option A → Exec B → (A → Exec B) → Exec B
on_some none m f = m
on_some (some a) m f = f a

abbrev pub traverse : {A B : Type 0} → (A → Exec B) → List A → Exec (List B)
traverse f [] = pure []
traverse f (x ∷ xs) = f x >>= λ y. traverse f xs >>= λ ys. pure (y ∷ ys)

abbrev pub each : {A : Type 0} → (A → Exec (Unit {0})) → List A → Exec (Unit {0})
each f [] = done
each f (x ∷ xs) = f x >> each f xs

-- A call that has no answer.
abbrev pub tell : Call → Exec (Unit {0})
tell call = look call (λ _. tt)

module _ (o : Outside) where
  abbrev pub uuid : Exec String
  uuid = look Call.read_uuid o.text

  abbrev pub utc_now : Exec String
  utc_now = look Call.read_now o.text

  abbrev pub monotonic : Exec ℕ
  monotonic = look Call.read_clock o.clock

  abbrev pub wait : ℕ → Exec (Unit {0})
  wait seconds = tell (Call.sleep seconds)

  -- `self._progress_step(message)`, which does nothing without a reporter.
  abbrev pub progress_step : String → Exec (Unit {0})
  progress_step message = tell (Call.progress message)

  -- `self.state_store.add_event(...)`
  unfoldable pub event : String → String → String → Option String → Payload → Exec (Unit {0})
  unfolding add_event
  event run_id event_type message resource_id payload = do
    id ← uuid
    now ← utc_now
    try_store (add_event id now run_id event_type message resource_id payload)
