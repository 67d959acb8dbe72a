-- ===== src/Remote/Timed.antt =====
-- Methods that always come to an outcome, and in which the clock does not run backwards.
use comfyui_runpod_agentic_n.Base.{
  ℕ, ◌+◌, ◌≤◌, ◌<◌, ltb, String, Bool, true, false, Option, none, some, List, [], ◌∷◌, ◌≡◌, refl,
  if◌then◌else◌, arith,
}
use comfyui_runpod_agentic_n.Base.Result.{Error, Result, ok, err}
use comfyui_runpod_agentic_n.Store.Rows.{Tables, Payload}
use comfyui_runpod_agentic_n.Store.Operations.{add_event}
use comfyui_runpod_agentic_n.Remote.Outside.{Call, Outside}
use comfyui_runpod_agentic_n.Remote.Exec.{
  World, Outcome, Exec, pure, raise, lift, ask, look, tell, modify, store, try_store, read, attempt,
  each, event, continue, handle, outcome, stored, uuid, utc_now, wait, monotonic, on_some, ◌>>=◌,
  ◌>>◌,
}

abbrev pub seconds_of : Call → ℕ
seconds_of (Call.sleep n) = n
seconds_of _ = 0

-- A monotonic clock, which a sleep moves on by its seconds at least.
abbrev pub HasClock : Outside → Type 0
HasClock o = (h : List Call) (c : Call) → o.clock h + seconds_of c ≤ o.clock (c ∷ h)

abbrev pub finished {ℓ} : {A : Type ℓ} → Outcome A → Bool
finished Outcome.unfinished = false
finished _ = true

module _ {A : Type 0} (o : Outside) where
  pub record IsTimedAt (m : Exec A) (w : World) : Type 0 where
    pub ends : finished (m w).0 ≡ true
    pub time : o.clock w.history ≤ o.clock (m w).1.history

  abbrev pub IsTimed : Exec A → Type 0
  IsTimed m = (w : World) → IsTimedAt m w

module _ {A : Type 0} (o : Outside) where
  pub pure-IsTimed : (a : A) → IsTimed o (pure a)
  pure-IsTimed a w = record { ends = refl; time = omega arith }

  pub raise-IsTimed : (e : Error) → IsTimed {A = A} o (raise e)
  raise-IsTimed e w = record { ends = refl; time = omega arith }

  pub lift-IsTimed : (r : Result A) → IsTimed o (lift r)
  lift-IsTimed (ok a) w = record { ends = refl; time = omega arith }
  lift-IsTimed (err e) w = record { ends = refl; time = omega arith }

  pub read-IsTimed : (f : Tables → A) → IsTimed o (read f)
  read-IsTimed f w = record { ends = refl; time = omega arith }

  pub store-IsTimed : (f : Tables → A × Tables) → IsTimed o (store f)
  store-IsTimed f w = record { ends = refl; time = omega arith }

  pub look-IsTimed : HasClock o → (c : Call) (f : List Call → A) → IsTimed o (look c f)
  look-IsTimed clock c f w = record { ends = refl; time = omega (arith, clock w.history c) }

  outcome-finished : (r : Result A) → finished (outcome r) ≡ true
  outcome-finished (ok a) = refl
  outcome-finished (err e) = refl

  pub ask-IsTimed : HasClock o → (c : Call) (f : List Call → Result A) → IsTimed o (ask c f)
  ask-IsTimed clock c f w = record {
    ends = outcome-finished (f (c ∷ w.history));
    time = omega (arith, clock w.history c);
  }

module _ (o : Outside) where
  pub modify-IsTimed : (f : Tables → Tables) → IsTimed o (modify f)
  modify-IsTimed f w = record { ends = refl; time = omega arith }

  stored-ends : (w : World) (r : Result Tables) → finished (stored w r).0 ≡ true
  stored-ends w (ok t) = refl
  stored-ends w (err e) = refl

  stored-history : (w : World) (r : Result Tables) → (stored w r).1.history ≡ w.history
  stored-history w (ok t) = refl
  stored-history w (err e) = refl

  pub try_store-IsTimed : (f : Tables → Result Tables) → IsTimed o (try_store f)
  try_store-IsTimed f w = record {
    ends = stored-ends w (f w.tables);
    time = rw (stored-history w (f w.tables)) (omega arith);
  }

module _ {A B : Type 0} (o : Outside) where
  continue-IsTimed :
      (w : World) (r : Outcome A × World) (f : A → Exec B)
      → finished r.0 ≡ true
      → o.clock w.history ≤ o.clock r.1.history
      → ((a : A) → IsTimed o (f a))
      → (finished (continue r f).0 ≡ true) × (o.clock w.history ≤ o.clock (continue r f).1.history)
  continue-IsTimed w (Outcome.returned a, v) f h k t = ((t a v).ends, omega (arith, (t a v).time))
  continue-IsTimed w (Outcome.raised e, v) f h k t = (refl, k)
  continue-IsTimed w (Outcome.unfinished, v) f h k t = absurd (ground arith)

  pub bind-IsTimed :
      (m : Exec A) (f : A → Exec B)
      → IsTimed o m
      → ((a : A) → IsTimed o (f a))
      → IsTimed o (m >>= f)
  unfolding ◌>>=◌
  bind-IsTimed m f s t w =
      let r = continue-IsTimed w (m w) f (s w).ends (s w).time t in
      record { ends = r.0; time = r.1 }

module _ {A : Type 0} (o : Outside) where
  handle-IsTimed :
      (w : World) (r : Outcome A × World) (f : Error → Exec A)
      → finished r.0 ≡ true
      → o.clock w.history ≤ o.clock r.1.history
      → ((e : Error) → IsTimed o (f e))
      → (finished (handle r f).0 ≡ true) × (o.clock w.history ≤ o.clock (handle r f).1.history)
  handle-IsTimed w (Outcome.returned a, v) f h k t = (refl, k)
  handle-IsTimed w (Outcome.raised e, v) f h k t = ((t e v).ends, omega (arith, (t e v).time))
  handle-IsTimed w (Outcome.unfinished, v) f h k t = absurd (ground arith)

  pub attempt-IsTimed :
      (m : Exec A) (f : Error → Exec A)
      → IsTimed o m
      → ((e : Error) → IsTimed o (f e))
      → IsTimed o (attempt m f)
  unfolding attempt
  attempt-IsTimed m f s t w =
      let r = handle-IsTimed w (m w) f (s w).ends (s w).time t in record { ends = r.0; time = r.1 }

  pub if-IsTimed :
      (b : Bool) (m n : Exec A) → IsTimed o m → IsTimed o n → IsTimed o (if b then m else n)
  if-IsTimed true m n s t = s
  if-IsTimed false m n s t = t

module _ {A : Type 0} (o : Outside) where
  pub each-IsTimed :
      (f : A → Exec (Unit {0})) (xs : List A) → ((x : A) → IsTimed o (f x)) → IsTimed o (each f xs)
  each-IsTimed f [] t = pure-IsTimed o tt
  each-IsTimed f (x ∷ xs) t = bind-IsTimed o (f x) (λ _. each f xs) (t x) (λ _. each-IsTimed f xs t)

module _ (o : Outside) (clock : HasClock o) where
  pub tell-IsTimed : (c : Call) → IsTimed o (tell c)
  tell-IsTimed c = look-IsTimed o clock c (λ _. tt)

  pub event-IsTimed :
      (run_id event_type message : String) (resource_id : Option String) (payload : Payload)
      → IsTimed o (event o run_id event_type message resource_id payload)
  unfolding event
  event-IsTimed run_id event_type message resource_id payload =
      bind-IsTimed o (uuid o) _ (look-IsTimed o clock Call.read_uuid o.text) λ id.
        bind-IsTimed o (utc_now o) _ (look-IsTimed o clock Call.read_now o.text) λ now.
          try_store-IsTimed o (add_event id now run_id event_type message resource_id payload)

-- The same at one world, for the loops.
module _ {A B : Type 0} (o : Outside) where
  continue-IsTimedAt :
      (w : World) (r : Outcome A × World) (f : A → Exec B)
      → finished r.0 ≡ true
      → o.clock w.history ≤ o.clock r.1.history
      → ((a : A) (v : World) → o.clock w.history ≤ o.clock v.history → IsTimedAt o (f a) v)
      → (finished (continue r f).0 ≡ true) × (o.clock w.history ≤ o.clock (continue r f).1.history)
  continue-IsTimedAt w (Outcome.returned a, v) f h k t =
      ((t a v k).ends, omega (arith, (t a v k).time))
  continue-IsTimedAt w (Outcome.raised e, v) f h k t = (refl, k)
  continue-IsTimedAt w (Outcome.unfinished, v) f h k t = absurd (ground arith)

  pub bind-IsTimedAt :
      (m : Exec A) (f : A → Exec B) (w : World)
      → IsTimed o m
      → ((a : A) (v : World) → o.clock w.history ≤ o.clock v.history → IsTimedAt o (f a) v)
      → IsTimedAt o (m >>= f) w
  unfolding ◌>>=◌
  bind-IsTimedAt m f w s t =
      let r = continue-IsTimedAt w (m w) f (s w).ends (s w).time t in
      record { ends = r.0; time = r.1 }

module _ {A : Type 0} (o : Outside) (clock : HasClock o) where
  pub wait-IsTimedAt :
      (n : ℕ) (m : Exec A) (w : World)
      → ((v : World) → o.clock w.history + n ≤ o.clock v.history → IsTimedAt o m v)
      → IsTimedAt o (wait o n >> m) w
  unfolding ◌>>=◌
  wait-IsTimedAt n m w t =
      let v : World = record { tables = w.tables; history = Call.sleep n ∷ w.history } in
      let moved : (o.clock w.history + n ≤ o.clock v.history) = clock w.history (Call.sleep n) in
      record { ends = (t v moved).ends; time = omega (arith, (t v moved).time) }

  pub if-IsTimedAt :
      (b : Bool) (m n : Exec A) (w : World)
      → (b ≡ true → IsTimedAt o m w)
      → IsTimedAt o n w
      → IsTimedAt o (if b then m else n) w
  if-IsTimedAt true m n w s t = s refl
  if-IsTimedAt false m n w s t = t

  -- One round of a loop, which has its deadline before it for the body.
  pub round-IsTimedAt :
      (deadline : ℕ) (body late : Exec A) (w : World)
      → ((v : World)
          → o.clock w.history ≤ o.clock v.history
          → o.clock v.history < deadline
          → IsTimedAt o body v)
      → IsTimed o late
      → IsTimedAt o (monotonic o >>= λ now. if ltb now deadline then body else late) w
  unfolding ◌>>=◌
  round-IsTimedAt deadline body late w s t =
      let v : World = record { tables = w.tables; history = Call.read_clock ∷ w.history } in
      let moved : (o.clock w.history ≤ o.clock v.history) =
        omega (arith, clock w.history Call.read_clock) in
      let r =
        if-IsTimedAt (ltb (o.clock v.history) deadline) body late v (λ h. s v moved (ground arith))
          (t v) in
      record { ends = r.ends; time = omega (arith, r.time) }

module _ {A B : Type 0} (o : Outside) where
  pub on_some-IsTimed :
      (a : Option A) (m : Exec B) (f : A → Exec B)
      → IsTimed o m
      → ((x : A) → IsTimed o (f x))
      → IsTimed o (on_some a m f)
  on_some-IsTimed none m f s t = s
  on_some-IsTimed (some x) m f s t = t x

  pub on_some-IsTimedAt :
      (a : Option A) (m : Exec B) (f : A → Exec B) (w : World)
      → IsTimedAt o m w
      → ((x : A) → IsTimedAt o (f x) w)
      → IsTimedAt o (on_some a m f) w
  on_some-IsTimedAt none m f w s t = s
  on_some-IsTimedAt (some x) m f w s t = t x
