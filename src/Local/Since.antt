-- ===== src/Local/Since.antt =====
-- local_runtime.py: which steps a method of the local runtime takes.
use comfyui_runpod_agentic_n.Base.{
  ℕ, String, Bool, true, false, List, ◌∷◌, ◌≡◌, refl, if◌then◌else◌,
}
use comfyui_runpod_agentic_n.Base.Result.{Result, ok, err}
use comfyui_runpod_agentic_n.Remote.Exec.{Outcome, returned, raised, unfinished}
use comfyui_runpod_agentic_n.Local.Host.{
  Step, Host, Local, pure, lift, tell, continue, guarded, run_process, ◌>>=◌,
}
use comfyui_runpod_agentic_n.Local.Ensures.{Holds, Ensures, Holds-imp}

-- A history that goes on from an earlier one by steps of one kind only.
pub data Since (P : Step → Type 0) (h : List Step) : List Step → Type 0 where
  now : Since P h h
  later : (s : Step) (h' : List Step) → Since P h h' → P s → Since P h (s ∷ h')

module _ (P : Step → Type 0) where
  pub Since-trans : (h h' h'' : List Step) → Since P h h' → Since P h' h'' → Since P h h''
  Since-trans h h' _ p now = p
  Since-trans h h' _ p (later s h'' q r) = later s h'' (Since-trans h h' h'' p q) r

  pub record Takes {A : Type 0} (m : Local A) : Type 0 where
    pub at : (h : List Step) → Since P h (m h).1

  -- The same of the runs whose value has a property.
  pub record TakesWhen {A : Type 0} (Q : A → Type 0) (m : Local A) : Type 0 where
    pub when : (h : List Step) → Holds (λ a. Q a → Since P h (m h).1) (m h).0

module _ {A : Type 0} (P : Step → Type 0) where
  pub pure-Takes : (a : A) → Takes P (pure a)
  pure-Takes a = record { at = λ h. now }

  pub lift-Takes : (r : Result A) → Takes P (lift r)
  lift-Takes r = record { at = λ h. now }

  pub if-Takes :
      (b : Bool) (m n : Local A)
      → (b ≡ true → Takes P m)
      → (b ≡ false → Takes P n)
      → Takes P (if b then m else n)
  if-Takes true m n p q = p refl
  if-Takes false m n p q = q refl

module _ (P : Step → Type 0) where
  pub tell-Takes : (s : Step) → P s → Takes P (tell s)
  tell-Takes s p = record { at = λ h. later s h now p }

  pub run_process-Takes :
      (host : Host) (args : List String) (t : ℕ)
      → P (Step.run args t)
      → Takes P (run_process host args t)
  run_process-Takes host args t p = record { at = λ h. later (Step.run args t) h now p }

  pub guarded-Takes :
      (host : Host) (engine action path failed : String) (command : Result (List String)) (t : ℕ)
      → ((args : List String) → command ≡ ok args → P (Step.run args t))
      → Takes P (guarded host engine action path failed command t)
  unfolding guarded
  guarded-Takes host engine action path failed (err e) t p = record { at = λ h. now }
  guarded-Takes host engine action path failed (ok args) t p = record {
    at = λ h. later (Step.run args t) h now (p args refl);
  }

module _ {A B : Type 0} (P : Step → Type 0) where
  continue-Since :
      (h : List Step) (r : Outcome A × List Step) (f : A → Local B)
      → Since P h r.1
      → ((a : A) → Takes P (f a))
      → Since P h (continue r f).1
  continue-Since h (returned a, h') f p e = Since-trans P h h' _ p ((e a).at h')
  continue-Since h (raised x, h') f p e = p
  continue-Since h (unfinished, h') f p e = p

  pub bind-Takes :
      (m : Local A) (f : A → Local B) → Takes P m → ((a : A) → Takes P (f a)) → Takes P (m >>= f)
  unfolding ◌>>=◌
  bind-Takes m f p e = record { at = λ h. continue-Since h (m h) f (p.at h) e }

  -- What follows a result that is there already knows it.
  pub result-Takes :
      (r : Result A) (f : A → Local B)
      → ((a : A) → r ≡ ok a → Takes P (f a))
      → Takes P (lift r >>= f)
  unfolding ◌>>=◌
  result-Takes (ok a) f e = record { at = (e a refl).at }
  result-Takes (err x) f e = record { at = λ h. now }

module _ {A B : Type 0} (P : Step → Type 0) (Q : B → Type 0) where
  continue-Holds_when :
      (h : List Step) (r : Outcome A × List Step) (f : A → Local B)
      → Since P h r.1
      → ((a : A) → TakesWhen P Q (f a))
      → Holds (λ b. Q b → Since P h (continue r f).1) (continue r f).0
  continue-Holds_when h (returned a, h') f p e =
      Holds-imp (λ b. Q b → Since P h' (f a h').1) (λ b. Q b → Since P h (f a h').1)
        (λ b g q. Since-trans P h h' _ p (g q)) (f a h').0 ((e a).when h')
  continue-Holds_when h (raised x, h') f p e = tt
  continue-Holds_when h (unfinished, h') f p e = tt

  pub bind-TakesWhen :
      (m : Local A) (f : A → Local B)
      → Takes P m
      → ((a : A) → TakesWhen P Q (f a))
      → TakesWhen P Q (m >>= f)
  unfolding ◌>>=◌
  bind-TakesWhen m f p e = record { when = λ h. continue-Holds_when h (m h) f (p.at h) e }

module _ {A : Type 0} (P : Step → Type 0) (Q : A → Type 0) where
  Holds-any_of : {S : Type 0} (r : Outcome A) → S → Holds (λ a. Q a → S) r
  Holds-any_of (returned a) s = λ q. s
  Holds-any_of (raised x) s = tt
  Holds-any_of unfinished s = tt

  pub Takes-TakesWhen : (m : Local A) → Takes P m → TakesWhen P Q m
  Takes-TakesWhen m p = record { when = λ h. Holds-any_of (m h).0 (p.at h) }

  -- Where no value has the property, nothing is asked of the steps.
  pub never-TakesWhen :
      (Q' : A → Type 0) (m : Local A) → Ensures Q' m → ((a : A) → Q' a → ¬ Q a) → TakesWhen P Q m
  never-TakesWhen Q' m e f = record {
    when = λ h.
        Holds-imp Q' (λ a. Q a → Since P h (m h).1) (λ a q' q. absurd (f a q' q)) (m h).0
          (e.holds h);
  }

  pub if-TakesWhen :
      (b : Bool) (m n : Local A)
      → (b ≡ true → TakesWhen P Q m)
      → (b ≡ false → TakesWhen P Q n)
      → TakesWhen P Q (if b then m else n)
  if-TakesWhen true m n p q = p refl
  if-TakesWhen false m n p q = q refl
