-- ===== src/Base/Dict.antt =====
-- Python's `dict` with text keys: entries in insertion order, and an overwrite keeps the place.
use Prim.Native.String.{String}
use mathlib.Core.Path.{◌≡◌, refl}
use mathlib.Core.Option.{Option, none, some}
use mathlib.Core.List.{List, [], ◌∷◌}
use native.Mathlib.Omega.{arith}
use text.Mathlib.Text.{◌==◌}
use text.Mathlib.TextEquality.{eq_iff}
use text.Mathlib.TextPositions.{eq_refl}
use comfyui_runpod_agentic_n.Base.Tests.{if◌then◌else◌, is_some}

abbrev pub Dict {ℓ} : Type ℓ → Type ℓ
Dict V = List (String × V)

module _ {ℓ} {V : Type ℓ} where
  -- `d.get(k)`
  unfoldable pub get : Dict V → String → Option V
  get [] k = none
  get ((j, v) ∷ d) k = if j == k then some v else get d k

  -- `d[k] = v`
  unfoldable pub put : Dict V → String → V → Dict V
  put [] k v = (k, v) ∷ []
  put ((j, w) ∷ d) k v = if j == k then (j, v) ∷ d else (j, w) ∷ put d k v

  -- `d.pop(k, None)`, which drops the value
  unfoldable pub pop : Dict V → String → Dict V
  pop [] k = []
  pop ((j, w) ∷ d) k = let rest = pop d k in if j == k then rest else (j, w) ∷ rest

  -- `d.update(e)`
  unfoldable pub update : Dict V → Dict V → Dict V
  unfolding put
  update d [] = d
  update d ((k, v) ∷ e) = update (put d k v) e

  -- The entry that wins when a dict is built from a list of pairs: the last one of a key.
  unfoldable pub last_of : Dict V → String → Option V
  last_of [] k = none
  last_of ((j, v) ∷ e) k =
      let later = last_of e k in if is_some later then later else if j == k then some v else none

module _ {ℓ} {V : Type ℓ} where
  pub get-put :
      (d : Dict V) (k : String) (v : V) (j : String)
      → get (put d k v) j ≡ (if k == j then some v else get d j)
  unfolding get put
  get-put [] k v j = refl
  get-put ((i, w) ∷ d) k v j = ground (arith, eq_iff i k, eq_iff i j, eq_iff k j, get-put d k v j)

  pub get-pop : (d : Dict V) (k j : String) → get (pop d k) j ≡ (if k == j then none else get d j)
  unfolding get pop
  get-pop [] k j = ground arith
  get-pop ((i, w) ∷ d) k j = ground (arith, get-pop d k j, eq_iff i k, eq_iff i j, eq_iff k j)

  pub get-update :
      (d e : Dict V) (k : String)
      → get (update d e) k ≡ (if is_some (last_of e k) then last_of e k else get d k)
  unfolding update last_of
  get-update d [] k = refl
  get-update d ((j, v) ∷ e) k = ground (arith, get-update (put d j v) e k, get-put d j v k)

  pub get-put_self : (d : Dict V) (k : String) (v : V) → get (put d k v) k ≡ some v
  get-put_self d k v = simp (get-put, eq_refl)

  -- No key stands twice, as in every dict.
  abbrev pub UniqueKeys : Dict V → Type ℓ
  UniqueKeys [] = Unit
  UniqueKeys ((k, v) ∷ d) = (get d k ≡ none) × UniqueKeys d

  pub put-UniqueKeys : (d : Dict V) (k : String) (v : V) → UniqueKeys d → UniqueKeys (put d k v)
  unfolding get put
  put-UniqueKeys [] k v u = (refl, tt)
  put-UniqueKeys ((j, w) ∷ d) k v u =
      ground (arith, put-UniqueKeys d k v u.1, get-put d k v j, eq_iff k j, eq_iff j k)

  pub last_of-eq-get : (d : Dict V) (k : String) → UniqueKeys d → last_of d k ≡ get d k
  unfolding get last_of
  last_of-eq-get [] k u = refl
  last_of-eq-get ((j, w) ∷ d) k u = ground (arith, last_of-eq-get d k u.1, eq_iff j k)

pub ruleset dict_laws = (get-put, get-pop)
