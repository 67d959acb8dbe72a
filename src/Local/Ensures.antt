-- ===== src/Local/Ensures.antt =====
-- What holds of every value that a method of the local runtime returns.
use mathlib.Core.Path.{subst}
use comfyui_runpod_agentic_n.Base.{Bool, true, false, List, ◌≡◌, refl, if◌then◌else◌}
use comfyui_runpod_agentic_n.Remote.Exec.{Outcome, returned, raised, unfinished}
use comfyui_runpod_agentic_n.Local.Host.{Step, Local, pure, continue, ◌>>=◌}

abbrev pub Holds : {A : Type 0} → (A → Type 0) → Outcome A → Type 0
Holds P (returned a) = P a
Holds P (raised e) = Unit
Holds P unfinished = Unit

pub record Ensures {A : Type 0} (P : A → Type 0) (m : Local A) : Type 0 where
  pub holds : (h : List Step) → Holds P (m h).0

module _ {A : Type 0} (P : A → Type 0) where
  pub Ensures-pure : (a : A) → P a → Ensures P (pure a)
  Ensures-pure a p = record { holds = λ h. p }

  pub Ensures-if :
      (b : Bool) (m n : Local A)
      → (b ≡ true → Ensures P m)
      → (b ≡ false → Ensures P n)
      → Ensures P (if b then m else n)
  Ensures-if true m n e f = e refl
  Ensures-if false m n e f = f refl

module _ {A B : Type 0} (P : B → Type 0) where
  continue-Holds :
      (Q : A → Type 0) (r : Outcome A × List Step) (f : A → Local B)
      → Holds Q r.0
      → ((a : A) → Q a → Ensures P (f a))
      → Holds P (continue r f).0
  continue-Holds Q (returned a, h) f q e = (e a q).holds h
  continue-Holds Q (raised x, h) f q e = tt
  continue-Holds Q (unfinished, h) f q e = tt

  -- What is known of the value of the first part is known in the second.
  pub Ensures-bind_through :
      (Q : A → Type 0) (m : Local A) (f : A → Local B)
      → Ensures Q m
      → ((a : A) → Q a → Ensures P (f a))
      → Ensures P (m >>= f)
  unfolding ◌>>=◌
  Ensures-bind_through Q m f q e = record { holds = λ h. continue-Holds Q (m h) f (q.holds h) e }

  continue-Holds_any :
      (r : Outcome A × List Step) (f : A → Local B)
      → ((a : A) → Ensures P (f a))
      → Holds P (continue r f).0
  continue-Holds_any (returned a, h) f e = (e a).holds h
  continue-Holds_any (raised x, h) f e = tt
  continue-Holds_any (unfinished, h) f e = tt

  pub Ensures-bind :
      (m : Local A) (f : A → Local B) → ((a : A) → Ensures P (f a)) → Ensures P (m >>= f)
  unfolding ◌>>=◌
  Ensures-bind m f e = record { holds = λ h. continue-Holds_any (m h) f e }

module _ {A : Type 0} (P Q : A → Type 0) (f : (a : A) → P a → Q a) where
  pub Holds-imp : (r : Outcome A) → Holds P r → Holds Q r
  Holds-imp (returned a) p = f a p
  Holds-imp (raised e) p = tt
  Holds-imp unfinished p = tt

  pub Ensures-imp : (m : Local A) → Ensures P m → Ensures Q m
  Ensures-imp m p = record { holds = λ h. Holds-imp (m h).0 (p.holds h) }

-- What holds of a value that may come back holds of the one that did, in the history that it left.
pub Holds-returned :
    {A : Type 0} (P : A → List Step → Type 0) (r : Outcome A × List Step) (a : A) (h : List Step)
    → Holds (λ x. P x r.1) r.0
    → r ≡ (returned a, h)
    → P a h
Holds-returned P r a h p e = subst (λ x. Holds (λ y. P y x.1) x.0) e p
