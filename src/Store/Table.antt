-- ===== src/Store/Table.antt =====
-- What SQLite does with a table that has a text as its primary key, as a list of rows in the order
-- of their insertion.
use comfyui_runpod_agentic_n.Base.{
  ℕ, String, ◌≡◌, refl, Bool, true, false, Option, none, some, List, [], ◌∷◌, ◌++◌, if◌then◌else◌,
  ◌==◌, eq_iff, arith, ltb, ◌=ℕ=◌, ◌||◌, ◌&&◌,
}
use comfyui_runpod_agentic_n.Base.Text.{codes}
use comfyui_runpod_agentic_n.Base.Sort.{All}

-- The order of texts, which is that of their code points.
abbrev pub leb_codes : List ℕ → List ℕ → Bool
leb_codes [] b = true
leb_codes (x ∷ a) [] = false
leb_codes (x ∷ a) (y ∷ b) = ltb x y || (x =ℕ= y && leb_codes a b)

abbrev pub leb_text : String → String → Bool
leb_text a b = leb_codes (codes a) (codes b)

module _ {A : Type 0} (id : A → String) where
  -- `SELECT * FROM table WHERE id = ?`
  unfoldable pub find : List A → String → Option A
  find [] k = none
  find (row ∷ rows) k = if id row == k then some row else find rows k

  -- `INSERT ... ON CONFLICT(id) DO UPDATE SET ...`: `set` has the columns that a conflict updates.
  unfoldable pub upsert : (A → A → A) → A → List A → List A
  upsert set row [] = row ∷ []
  upsert set row (old ∷ rows) =
      let rest = upsert set row rows in if id old == id row then set row old ∷ rows else old ∷ rest

  -- `UPDATE table SET ... WHERE id = ?`
  unfoldable pub update_row : (A → A) → String → List A → List A
  update_row set k [] = []
  update_row set k (row ∷ rows) = (if id row == k then set row else row) ∷ update_row set k rows

module _ {A : Type 0} (before : A → A → Bool) where
  place : A → List A → List A
  place x [] = x ∷ []
  place x (y ∷ ys) = let later = place x ys in if before x y then x ∷ y ∷ ys else y ∷ later

  -- `ORDER BY`: a stable sort.
  unfoldable pub order_by : List A → List A
  unfolding place
  order_by [] = []
  order_by (x ∷ xs) = place x (order_by xs)

  All-place : (P : A → Type 0) (x : A) (ys : List A) → P x → All P ys → All P (place x ys)
  unfolding place
  All-place P x [] p a = (p, tt)
  All-place P x (y ∷ ys) p a = ground (arith, All-place P x ys p a.1)

  pub All-order_by : (P : A → Type 0) (xs : List A) → All P xs → All P (order_by xs)
  unfolding order_by
  All-order_by P [] a = tt
  All-order_by P (x ∷ xs) a = All-place P x (order_by xs) a.0 (All-order_by P xs a.1)

module _ {A : Type 0} (id : A → String) where
  pub find-upsert :
      (set : A → A → A) (row : A) (rows : List A) (k : String)
      → ((old : A) → id (set row old) ≡ id old)
      → find id (upsert id set row rows) k ≡ (
          if id row == k
          then elim (find id rows k) [ none ↦ some row | some old ↦ some (set row old) ]
          else find id rows k)
  unfolding find upsert
  find-upsert set row [] k keeps = ground arith
  find-upsert set row (old ∷ rows) k keeps = ground (
    arith,
    find-upsert set row rows k keeps,
    keeps old,
    eq_iff (id old) (id row),
    eq_iff (id old) k,
    eq_iff (id row) k,
  )

  pub find-update_row :
      (set : A → A) (j : String) (rows : List A) (k : String)
      → ((old : A) → id (set old) ≡ id old)
      → find id (update_row id set j rows) k ≡ (
          if j == k
          then elim (find id rows k) [ none ↦ none | some old ↦ some (set old) ]
          else find id rows k)
  unfolding find update_row
  find-update_row set j [] k keeps = ground arith
  find-update_row set j (old ∷ rows) k keeps = ground (
    arith,
    find-update_row set j rows k keeps,
    keeps old,
    eq_iff (id old) j,
    eq_iff (id old) k,
    eq_iff j k,
  )

  pub find-append :
      (rows : List A) (row : A) (k : String)
      → find id rows (id row) ≡ none
      → find id (rows ++ row ∷ []) k ≡ (if id row == k then some row else find id rows k)
  unfolding find
  find-append [] row k h = refl
  find-append (old ∷ rows) row k h = ground (
    arith,
    find-append rows row k,
    eq_iff (id old) (id row),
    eq_iff (id old) k,
    eq_iff (id row) k,
  )
