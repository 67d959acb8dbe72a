-- ===== src/Remote/Post.antt =====
-- What holds of the value that a method returns, if it returns one.
use mathlib.Core.Path.{subst}
use comfyui_runpod_agentic_n.Base.{Bool, true, false, ◌≡◌, refl, if◌then◌else◌}
use comfyui_runpod_agentic_n.Remote.Exec.{
  World, Outcome, Exec, returned, raised, unfinished, continue, ◌>>=◌,
}

abbrev pub PostAt : {A : Type 0} → (A → Type 0) → Outcome A × World → Type 0
PostAt P (returned a, w) = P a
PostAt P (raised e, w) = Unit
PostAt P (unfinished, w) = Unit

abbrev pub Post : {A : Type 0} → (A → Type 0) → Exec A → Type 0
Post P m = (w : World) → PostAt P (m w)

abbrev pub Any : {A : Type 0} → A → Type 0
Any a = Unit

module _ {A B : Type 0} (P : A → Type 0) (Q : B → Type 0) where
  continue-Post :
      (r : Outcome A × World) (f : A → Exec B)
      → PostAt P r
      → ((a : A) → P a → Post Q (f a))
      → PostAt Q (continue r f)
  continue-Post (returned a, w) f h k = k a h w
  continue-Post (raised e, w) f h k = tt
  continue-Post (unfinished, w) f h k = tt

  pub bind-Post :
      (m : Exec A) (f : A → Exec B) → Post P m → ((a : A) → P a → Post Q (f a)) → Post Q (m >>= f)
  unfolding ◌>>=◌
  bind-Post m f h k w = continue-Post (m w) f (h w) k

module _ {A B : Type 0} (Q : B → Type 0) where
  Any-at : (r : Outcome A × World) → PostAt Any r
  Any-at (returned a, w) = tt
  Any-at (raised e, w) = tt
  Any-at (unfinished, w) = tt

  -- Nothing need be known of what comes first.
  pub then-Post : (m : Exec A) (f : A → Exec B) → ((a : A) → Post Q (f a)) → Post Q (m >>= f)
  then-Post m f k = bind-Post Any Q m f (λ w. Any-at (m w)) (λ a h. k a)

returned_injective : {A : Type 0} (a b : A) → returned a ≡ returned b → a ≡ b
returned_injective a b e = cc

module _ {A : Type 0} (P : A → Type 0) where
  pub if-Post :
      (b : Bool) (m n : Exec A)
      → (b ≡ true → Post P m)
      → (b ≡ false → Post P n)
      → Post P (if b then m else n)
  if-Post true m n s t = s refl
  if-Post false m n s t = t refl

  pub Post-at : (r : Outcome A × World) (a : A) → PostAt P r → r.0 ≡ returned a → P a
  Post-at (returned b, w) a h e = subst P (returned_injective b a e) h
  Post-at (raised x, w) a h e = absurd (cc)
  Post-at (unfinished, w) a h e = absurd (cc)

-- The same of the value and of the world that is left.
abbrev pub Leads : {A : Type 0} → (A → World → Type 0) → Outcome A × World → Type 0
Leads P (returned a, w) = P a w
Leads P (raised e, w) = Unit
Leads P (unfinished, w) = Unit

pub continue-Leads :
    {A B : Type 0} (P : A → World → Type 0) (Q : B → World → Type 0) (r : Outcome A × World)
    (f : A → Exec B)
    → Leads P r
    → ((a : A) (w : World) → P a w → Leads Q (f a w))
    → Leads Q (continue r f)
continue-Leads P Q (returned a, w) f h k = k a w h
continue-Leads P Q (raised e, w) f h k = tt
continue-Leads P Q (unfinished, w) f h k = tt

pub Leads-at :
    {A : Type 0} (P : A → World → Type 0) (r : Outcome A × World) (a : A) (w : World)
    → Leads P r
    → r ≡ (returned a, w)
    → P a w
Leads-at P r a w h e = subst (Leads P) e h
