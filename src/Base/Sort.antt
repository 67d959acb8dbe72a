-- ===== src/Base/Sort.antt =====
-- `sorted(xs, key=...)`: a stable insertion sort by an integer key, and what it promises.
use mathlib.Core.Path.{◌≡◌, refl}
use mathlib.Core.Bool.{Bool, true, false}
use mathlib.Core.List.{List, [], ◌∷◌, ◌++◌, map, Perm}
use mathlib.Core.List.Perm
use native.Mathlib.Omega.{arith}
use comfyui_runpod_agentic_n.Base.Tests.{ℤ, leb_ℤ, select, if◌then◌else◌, Bool-cases}
use mathlib.Core.Logic.{inl, inr}

abbrev pub All {ℓ κ} : {A : Type ℓ} → (A → Type κ) → List A → Type κ
All P [] = Unit
All P (x ∷ xs) = P x × All P xs

module _ {ℓ} {A : Type ℓ} (key : A → ℤ) where
  unfoldable pub insert_by : A → List A → List A
  insert_by x [] = x ∷ []
  insert_by x (y ∷ ys) =
      let later = insert_by x ys in if leb_ℤ (key x) (key y) then x ∷ y ∷ ys else y ∷ later

  unfoldable pub sorted_by : List A → List A
  unfolding insert_by
  sorted_by [] = []
  sorted_by (x ∷ xs) = insert_by x (sorted_by xs)

  abbrev pub IsSorted : List A → Type 0
  IsSorted [] = Unit
  IsSorted (x ∷ xs) = All (λ y. leb_ℤ (key x) (key y) ≡ true) xs × IsSorted xs

leb_ℤ_total : (a b : ℤ) → leb_ℤ a b ≡ false → leb_ℤ b a ≡ true
leb_ℤ_total a b h = ground arith

leb_ℤ_trans : (a b c : ℤ) → leb_ℤ a b ≡ true → leb_ℤ b c ≡ true → leb_ℤ a c ≡ true
leb_ℤ_trans a b c h k = ground arith

module _ {ℓ} {A : Type ℓ} (key : A → ℤ) where
  All-above :
      (x y : A) (ys : List A)
      → leb_ℤ (key x) (key y) ≡ true
      → All (λ z. leb_ℤ (key y) (key z) ≡ true) ys
      → All (λ z. leb_ℤ (key x) (key z) ≡ true) ys
  All-above x y [] h a = tt
  All-above x y (z ∷ zs) h a = (leb_ℤ_trans (key x) (key y) (key z) h a.0, All-above x y zs h a.1)

  All-insert_by :
      (P : A → Type 0) (x : A) (ys : List A) → P x → All P ys → All P (insert_by key x ys)
  unfolding insert_by
  All-insert_by P x [] p a = (p, tt)
  All-insert_by P x (y ∷ ys) p a = elim (Bool-cases (leb_ℤ (key x) (key y))) [
    | inl e ↦ rw e (p, a)
    | inr e ↦ rw e (a.0, All-insert_by P x ys p a.1)
  ]

  insert_by-IsSorted : (x : A) (ys : List A) → IsSorted key ys → IsSorted key (insert_by key x ys)
  unfolding insert_by
  insert_by-IsSorted x [] s = (tt, tt)
  insert_by-IsSorted x (y ∷ ys) s = elim (Bool-cases (leb_ℤ (key x) (key y))) [
    | inl e ↦ rw e ((e, All-above x y ys e s.0), s)
    | inr e ↦ rw e (
      All-insert_by (λ z. leb_ℤ (key y) (key z) ≡ true) x ys (leb_ℤ_total (key x) (key y) e) s.0,
      insert_by-IsSorted x ys s.1,
    )
  ]

  pub sorted_by-IsSorted : (xs : List A) → IsSorted key (sorted_by key xs)
  unfolding sorted_by
  sorted_by-IsSorted [] = tt
  sorted_by-IsSorted (x ∷ xs) = insert_by-IsSorted x (sorted_by key xs) (sorted_by-IsSorted xs)

  insert_by-perm : (x : A) (ys : List A) → Perm (insert_by key x ys) (x ∷ ys)
  unfolding insert_by
  insert_by-perm x [] = Perm.refl _
  insert_by-perm x (y ∷ ys) = elim (Bool-cases (leb_ℤ (key x) (key y))) [
    | inl e ↦ rw e (Perm.refl _)
    | inr e ↦ rw e (Perm.trans (Perm.cons y (insert_by-perm x ys)) (Perm.swap _ _ _))
  ]

  pub sorted_by-perm : (xs : List A) → Perm (sorted_by key xs) xs
  unfolding sorted_by
  sorted_by-perm [] = Perm.refl []
  sorted_by-perm (x ∷ xs) =
      Perm.trans (insert_by-perm x (sorted_by key xs)) (Perm.cons x (sorted_by-perm xs))

  pub All-sorted_by : (P : A → Type 0) (xs : List A) → All P xs → All P (sorted_by key xs)
  unfolding sorted_by
  All-sorted_by P [] a = tt
  All-sorted_by P (x ∷ xs) a = All-insert_by P x (sorted_by key xs) a.0 (All-sorted_by P xs a.1)

  select-All : (P : A → Type 0) (p : A → Bool) (xs : List A) → All P xs → All P (select p xs)
  unfolding select
  select-All P p [] a = tt
  select-All P p (x ∷ xs) a = elim (Bool-cases (p x)) [
    | inl e ↦ rw e (a.0, select-All P p xs a.1)
    | inr e ↦ rw e (select-All P p xs a.1)
  ]

  pub select-IsSorted : (p : A → Bool) (xs : List A) → IsSorted key xs → IsSorted key (select p xs)
  unfolding select
  select-IsSorted p [] s = tt
  select-IsSorted p (x ∷ xs) s = elim (Bool-cases (p x)) [
    | inl e ↦
        rw e (select-All (λ y. leb_ℤ (key x) (key y) ≡ true) p xs s.0, select-IsSorted p xs s.1)
    | inr e ↦ rw e (select-IsSorted p xs s.1)
  ]

module _ {ℓ} {A : Type ℓ} where
  pub All-append : (P : A → Type 0) (xs ys : List A) → All P xs → All P ys → All P (xs ++ ys)
  All-append P [] ys a b = b
  All-append P (x ∷ xs) ys a b = (a.0, All-append P xs ys a.1 b)

-- Sorting what is sorted changes nothing, and a list stays sorted with a largest item at its end.
module _ {ℓ} {A : Type ℓ} (key : A → ℤ) where
  insert_by-head :
      (x : A) (ys : List A)
      → All (λ y. leb_ℤ (key x) (key y) ≡ true) ys
      → insert_by key x ys ≡ x ∷ ys
  unfolding insert_by
  insert_by-head x [] a = refl
  insert_by-head x (y ∷ ys) a = rw a.0 refl

  pub sorted_by_same : (xs : List A) → IsSorted key xs → sorted_by key xs ≡ xs
  unfolding sorted_by
  sorted_by_same [] s = refl
  sorted_by_same (x ∷ xs) s = rw (sorted_by_same xs s.1) (insert_by-head x xs s.0)

  pub append-IsSorted :
      (xs : List A) (y : A)
      → IsSorted key xs
      → All (λ x. leb_ℤ (key x) (key y) ≡ true) xs
      → IsSorted key (xs ++ y ∷ [])
  append-IsSorted [] y s a = (tt, tt)
  append-IsSorted (x ∷ xs) y s a = (
    All-append (λ z. leb_ℤ (key x) (key z) ≡ true) xs (y ∷ []) s.0 (a.0, tt),
    append-IsSorted xs y s.1 a.1,
  )

module _ {ℓ} {A : Type ℓ} where
  -- What `select` keeps passes the test.
  pub All-select : (p : A → Bool) (xs : List A) → All (λ x. p x ≡ true) (select p xs)
  unfolding select
  All-select p [] = tt
  All-select p (x ∷ xs) = elim (Bool-cases (p x)) [
    | inl e ↦ rw e (e, All-select p xs)
    | inr e ↦ rw e (All-select p xs)
  ]

  pub All-map {κ} :
      {B : Type κ} (P : B → Type 0) (f : A → B) (xs : List A)
      → All (λ x. P (f x)) xs
      → All P (map f xs)
  All-map P f [] a = tt
  All-map P f (x ∷ xs) a = (a.0, All-map P f xs a.1)

  pub All-imp : (P Q : A → Type 0) → ((x : A) → P x → Q x) → (xs : List A) → All P xs → All Q xs
  All-imp P Q f [] a = tt
  All-imp P Q f (x ∷ xs) a = (f x a.0, All-imp P Q f xs a.1)
