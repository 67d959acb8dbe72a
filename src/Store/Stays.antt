-- ===== src/Store/Stays.antt =====
-- state_store.py: tables in which every row that was there stays, as far as a relation says.
use comfyui_runpod_agentic_n.Base.{
  String, ◌≡◌, sym, Option, none, some, List, ◌∷◌, ◌++◌, [], ◌==◌, eq_iff, Bool-cases, Option-cases,
  inl, inr,
}
use comfyui_runpod_agentic_n.Store.Rows.{}
use comfyui_runpod_agentic_n.Store.Table.{
  find, upsert, update_row, find-upsert, find-update_row, find-append,
}
use comfyui_runpod_agentic_n.Store.Operations.{}

-- A row that is there stays, as far as a relation says.
abbrev pub Stays : {A : Type 0} → (A → A → Type 0) → Option A → Option A → Type 0
Stays R none new = Unit
Stays R (some old) none = ⊥
Stays R (some old) (some new) = R old new

-- The same of every key of a table.
pub record AllStay {A : Type 0} (id : A → String) (R : A → A → Type 0) (old new : List A)
    : Type 0 where
  pub stays : (k : String) → Stays R (find id old k) (find id new k)

pub record IsOrder {A : Type 0} (R : A → A → Type 0) : Type 0 where
  pub same : (a : A) → R a a
  pub joins : (a b c : A) → R a b → R b c → R a c

module _ {A : Type 0} (id : A → String) (R : A → A → Type 0) (order : IsOrder R) where
  Stays-refl : (o : Option A) → Stays R o o
  Stays-refl none = tt
  Stays-refl (some a) = order.same a

  Stays-trans : (o p q : Option A) → Stays R o p → Stays R p q → Stays R o q
  Stays-trans none p q h k = tt
  Stays-trans (some a) none q h k = absurd h
  Stays-trans (some a) (some b) none h k = absurd k
  Stays-trans (some a) (some b) (some c) h k = order.joins a b c h k

  pub AllStay-refl : (rows : List A) → AllStay id R rows rows
  AllStay-refl rows = record { stays = λ k. Stays-refl (find id rows k) }

  pub AllStay-trans : (a b c : List A) → AllStay id R a b → AllStay id R b c → AllStay id R a c
  AllStay-trans a b c h k = record {
    stays = λ x. Stays-trans (find id a x) (find id b x) (find id c x) (h.stays x) (k.stays x);
  }

  pub upsert-AllStay :
      (set : A → A → A) (row : A) (rows : List A)
      → ((old : A) → id (set row old) ≡ id old)
      → ((old : A) → find id rows (id row) ≡ some old → R old (set row old))
      → AllStay id R rows (upsert id set row rows)
  upsert-AllStay set row rows keeps related = record {
    stays = λ k. rw (find-upsert id set row rows k keeps) (elim (Bool-cases (id row == k)) [
      | inl e ↦ rw e (elim (Option-cases (find id rows k)) [
        | inl n ↦ rw n tt
        | inr (old, f) ↦ rw f (related old (rw ((eq_iff (id row) k).0 e) f))
      ])
      | inr e ↦ rw e (Stays-refl (find id rows k))
    ]);
  }

  pub update_row-AllStay :
      (set : A → A) (j : String) (rows : List A)
      → ((old : A) → id (set old) ≡ id old)
      → ((old : A) → R old (set old))
      → AllStay id R rows (update_row id set j rows)
  update_row-AllStay set j rows keeps related = record {
    stays = λ k. rw (find-update_row id set j rows k keeps) (elim (Bool-cases (j == k)) [
      | inl e ↦ rw e (elim (Option-cases (find id rows k)) [
        | inl n ↦ rw n tt
        | inr (old, f) ↦ rw f (related old)
      ])
      | inr e ↦ rw e (Stays-refl (find id rows k))
    ]);
  }

  pub append-AllStay :
      (rows : List A) (row : A)
      → find id rows (id row) ≡ none
      → AllStay id R rows (rows ++ row ∷ [])
  append-AllStay rows row fresh = record {
    stays = λ k. rw (find-append id rows row k fresh) (elim (Bool-cases (id row == k)) [
      | inl e ↦ rw e (rw (sym ((eq_iff (id row) k).0 e), fresh) tt)
      | inr e ↦ rw e (Stays-refl (find id rows k))
    ]);
  }
