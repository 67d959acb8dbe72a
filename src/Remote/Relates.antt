-- ===== src/Remote/Relates.antt =====
-- Methods that relate the world before them to the world after them, whatever their outcome, by a relation
-- that is reflexive and transitive.
use comfyui_runpod_agentic_n.Base.{
  String, Bool, true, false, Option, none, some, List, [], ◌∷◌, ◌≡◌, refl, if◌then◌else◌,
}
use comfyui_runpod_agentic_n.Base.Result.{Error, Result, ok, err}
use comfyui_runpod_agentic_n.Store.Rows.{Tables, Payload}
use comfyui_runpod_agentic_n.Store.Operations.{add_event}
use comfyui_runpod_agentic_n.Remote.Outside.{Call, Outside}
use comfyui_runpod_agentic_n.Remote.Exec.{
  World, Outcome, Exec, stored, attempt, handle, each, event, continue, on_some, uuid, utc_now,
  ◌>>=◌,
}

abbrev pub Relation : Type 1
Relation = World → World → Type 0

pub record IsPreorder (R : Relation) : Type 0 where
  pub stays : (w : World) → R w w
  pub joins : (u v w : World) → R u v → R v w → R u w

abbrev pub Relates : {A : Type 0} → Relation → Exec A → Type 0
Relates R m = (w : World) → R w (m w).1

module _ {A B : Type 0} (R : Relation) (order : IsPreorder R) where
  continue-Relates :
      (w : World) (r : Outcome A × World) (f : A → Exec B)
      → R w r.1
      → ((a : A) → Relates R (f a))
      → R w (continue r f).1
  continue-Relates w (Outcome.returned a, v) f h k = order.joins w v (f a v).1 h (k a v)
  continue-Relates w (Outcome.raised e, v) f h k = h
  continue-Relates w (Outcome.unfinished, v) f h k = h

  pub bind-Relates :
      (m : Exec A) (f : A → Exec B)
      → Relates R m
      → ((a : A) → Relates R (f a))
      → Relates R (m >>= f)
  unfolding ◌>>=◌
  bind-Relates m f h k w = continue-Relates w (m w) f (h w) k

  pub on_some-Relates :
      (a : Option A) (m : Exec B) (f : A → Exec B)
      → Relates R m
      → ((x : A) → Relates R (f x))
      → Relates R (on_some a m f)
  on_some-Relates none m f s t = s
  on_some-Relates (some x) m f s t = t x

module _ {A : Type 0} (R : Relation) (order : IsPreorder R) where
  handle-Relates :
      (w : World) (r : Outcome A × World) (f : Error → Exec A)
      → R w r.1
      → ((e : Error) → Relates R (f e))
      → R w (handle r f).1
  handle-Relates w (Outcome.returned a, v) f h k = h
  handle-Relates w (Outcome.raised e, v) f h k = order.joins w v (f e v).1 h (k e v)
  handle-Relates w (Outcome.unfinished, v) f h k = h

  pub attempt-Relates :
      (m : Exec A) (f : Error → Exec A)
      → Relates R m
      → ((e : Error) → Relates R (f e))
      → Relates R (attempt m f)
  unfolding attempt
  attempt-Relates m f h k w = handle-Relates w (m w) f (h w) k

  pub if-Relates :
      (b : Bool) (m n : Exec A) → Relates R m → Relates R n → Relates R (if b then m else n)
  if-Relates true m n s t = s
  if-Relates false m n s t = t

  pub each-Relates :
      (f : A → Exec (Unit {0})) (xs : List A) → ((x : A) → Relates R (f x)) → Relates R (each f xs)
  each-Relates f [] t = order.stays
  each-Relates f (x ∷ xs) t =
      bind-Relates R order (f x) (λ _. each f xs) (t x) (λ _. each-Relates f xs t)

-- A step of the history that is related.
abbrev pub Calls : Relation → Call → Type 0
Calls R c = (w : World) → R w (record { tables = w.tables; history = c ∷ w.history })

module _ (R : Relation) (order : IsPreorder R) (o : Outside) where
  stored-Relates :
      (w : World) (r : Result Tables)
      → R w w
      → ((t : Tables) → r ≡ ok t → R w (record { tables = t; history = w.history }))
      → R w (stored w r).1
  stored-Relates w (ok t) h k = k t refl
  stored-Relates w (err e) h k = h

  -- An event is two readings and a row.
  pub event-Relates :
      (run_id event_type message : String) (resource_id : Option String) (payload : Payload)
      → Calls R Call.read_uuid
      → Calls R Call.read_now
      → ((w : World) (uuid now : String) (t : Tables)
          → add_event uuid now run_id event_type message resource_id payload w.tables ≡ ok t
          → R w (record { tables = t; history = w.history }))
      → Relates R (event o run_id event_type message resource_id payload)
  unfolding event
  event-Relates run_id event_type message resource_id payload u n t =
      bind-Relates R order (uuid o) _ u λ id. bind-Relates R order (utc_now o) _ n λ now w.
        stored-Relates w (add_event id now run_id event_type message resource_id payload w.tables)
          (order.stays w) (t w id now)
