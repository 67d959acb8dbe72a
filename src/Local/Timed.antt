-- ===== src/Local/Timed.antt =====
-- Methods of the local runtime that always come to an outcome, and in which the clock does not run
-- backwards.
use comfyui_runpod_agentic_n.Base.{
  ℕ, ◌+◌, ◌≤◌, String, Bool, true, false, Option, none, some, List, ◌∷◌, ◌≡◌, refl, arith,
  if◌then◌else◌,
}
use comfyui_runpod_agentic_n.Base.Result.{Error, Result, ok, err}
use comfyui_runpod_agentic_n.Remote.Exec.{Outcome, returned, raised, unfinished}
use comfyui_runpod_agentic_n.Remote.Timed.{finished}
use comfyui_runpod_agentic_n.Local.Host.{
  Step, Host, Finish, Local, pure, lift, tell, look, on_option, on_result, run_process, guarded,
  continue, completed_of, ◌>>=◌,
}

abbrev pub seconds_of : Step → ℕ
seconds_of (Step.sleep n) = n
seconds_of _ = 0

-- A monotonic clock, which a sleep moves on by its seconds at least.
abbrev pub HasClock : Host → Type 0
HasClock host = (h : List Step) (s : Step) → host.clock h + seconds_of s ≤ host.clock (s ∷ h)

module _ {A : Type 0} (host : Host) where
  pub record EndsAt (m : Local A) (h : List Step) : Type 0 where
    pub ends : finished (m h).0 ≡ true
    pub time : host.clock h ≤ host.clock (m h).1

  pub record Ends (m : Local A) : Type 0 where
    pub at : (h : List Step) → EndsAt m h

module _ {A : Type 0} (host : Host) where
  pub pure-Ends : (a : A) → Ends host (pure a)
  pure-Ends a = record { at = λ h. record { ends = refl; time = omega arith } }

  pub lift-Ends : (r : Result A) → Ends host (lift r)
  lift-Ends (ok a) = record { at = λ h. record { ends = refl; time = omega arith } }
  lift-Ends (err e) = record { at = λ h. record { ends = refl; time = omega arith } }

  pub look-Ends : HasClock host → (s : Step) (f : List Step → A) → Ends host (look s f)
  look-Ends clock s f = record { at = λ h. record { ends = refl; time = omega (arith, clock h s) } }

  pub if-Ends :
      (b : Bool) (m n : Local A) → Ends host m → Ends host n → Ends host (if b then m else n)
  if-Ends true m n p q = p
  if-Ends false m n p q = q

module _ (host : Host) (clock : HasClock host) where
  pub tell-Ends : (s : Step) → Ends host (tell s)
  tell-Ends s = record { at = λ h. record { ends = refl; time = omega (arith, clock h s) } }

  completed-finished : (f : Finish) → finished (completed_of f) ≡ true
  completed-finished (Finish.exited code out text) = refl
  completed-finished (Finish.timed_out out text message) = refl
  completed-finished (Finish.missing message) = refl

  pub run_process-Ends : (args : List String) (t : ℕ) → Ends host (run_process host args t)
  run_process-Ends args t = record {
    at = λ h. record {
      ends = completed-finished (host.finish (Step.run args t ∷ h));
      time = omega (arith, clock h (Step.run args t));
    };
  }

  pub guarded-Ends :
      (engine action path failed : String) (command : Result (List String)) (t : ℕ)
      → Ends host (guarded host engine action path failed command t)
  unfolding guarded
  guarded-Ends engine action path failed (err e) t = record {
    at = λ h. record { ends = refl; time = omega arith };
  }
  guarded-Ends engine action path failed (ok command) t = record {
    at = λ h. record { ends = refl; time = omega (arith, clock h (Step.run command t)) };
  }

module _ {A B : Type 0} (host : Host) where
  continue-Ends :
      (h : List Step) (r : Outcome A × List Step) (f : A → Local B)
      → finished r.0 ≡ true
      → host.clock h ≤ host.clock r.1
      → ((a : A) → EndsAt host (f a) r.1)
      → (finished (continue r f).0 ≡ true) × (host.clock h ≤ host.clock (continue r f).1)
  continue-Ends h (returned a, h') f p q e = ((e a).ends, omega (arith, q, (e a).time))
  continue-Ends h (raised x, h') f p q e = (refl, q)
  continue-Ends h (unfinished, h') f p q e = absurd (ground arith)

  pub bind-EndsAt :
      (m : Local A) (f : A → Local B) (h : List Step)
      → EndsAt host m h
      → ((a : A) → EndsAt host (f a) (m h).1)
      → EndsAt host (m >>= f) h
  unfolding ◌>>=◌
  bind-EndsAt m f h p e =
      let r = continue-Ends h (m h) f p.ends p.time e in record { ends = r.0; time = r.1 }

  pub bind-Ends :
      (m : Local A) (f : A → Local B)
      → Ends host m
      → ((a : A) → Ends host (f a))
      → Ends host (m >>= f)
  bind-Ends m f p e = record { at = λ h. bind-EndsAt m f h (p.at h) (λ a. (e a).at (m h).1) }

  -- A result that is there already takes no step.
  pub result-EndsAt :
      (r : Result A) (f : A → Local B) (h : List Step)
      → ((a : A) → EndsAt host (f a) h)
      → EndsAt host (lift r >>= f) h
  result-EndsAt r f h e = bind-EndsAt (lift r) f h ((lift-Ends host r).at h) e

  -- A step that is answered: what follows knows the answer.
  pub look-EndsAt :
      HasClock host
      → (s : Step) (answer : List Step → A) (f : A → Local B) (h : List Step)
      → EndsAt host (f (answer (s ∷ h))) (s ∷ h)
      → EndsAt host (look s answer >>= f) h
  unfolding ◌>>=◌
  look-EndsAt clock s answer f h e = record {
    ends = e.ends;
    time = omega (arith, e.time, clock h s);
  }

  pub on_option-Ends :
      (o : Option A) (m : Local B) (f : A → Local B)
      → Ends host m
      → ((a : A) → Ends host (f a))
      → Ends host (on_option o m f)
  unfolding on_option
  on_option-Ends none m f p e = p
  on_option-Ends (some a) m f p e = e a

  pub on_result-Ends :
      (r : Result A) (m : Error → Local B) (f : A → Local B)
      → ((x : Error) → Ends host (m x))
      → ((a : A) → Ends host (f a))
      → Ends host (on_result r m f)
  unfolding on_result
  on_result-Ends (err x) m f p e = p x
  on_result-Ends (ok a) m f p e = e a

module _ {B : Type 0} (host : Host) where
  pub tell-EndsAt :
      HasClock host
      → (s : Step) (f : Unit {0} → Local B) (h : List Step) → EndsAt host (f tt) (s ∷ h)
      → EndsAt host (tell s >>= f) h
  unfolding ◌>>=◌
  tell-EndsAt clock s f h e = record { ends = e.ends; time = omega (arith, e.time, clock h s) }
