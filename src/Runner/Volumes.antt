-- ===== src/Runner/Volumes.antt =====
-- Which volumes the resources of a plan get.
use comfyui_runpod_agentic_n.Base.{
  ℕ, String, Bool, true, false, ◌||◌, Option, none, some, List, [], ◌∷◌, ◌≡◌, refl, sym, ap, ◌∙◌,
  ◌++◌, map, arith, is_some, eq_iff, is_empty, Bool-cases, Option-cases, inl, inr,
}
use comfyui_runpod_agentic_n.Base.Sort.{All, All-imp}
use comfyui_runpod_agentic_n.Planner.Plan.{ResourcePlan, DeploymentPlan}
use comfyui_runpod_agentic_n.Base.Result.{ok, Result-cases}
use comfyui_runpod_agentic_n.Store.Rows.{Payload}
use comfyui_runpod_agentic_n.Remote.Outside.{Call, Outside}
use comfyui_runpod_agentic_n.Remote.Exec.{
  World, Outcome, returned, raised, unfinished, pure, event, continue, ◌>>=◌,
}
use comfyui_runpod_agentic_n.Remote.Relates.{Relation, IsPreorder, Relates, event-Relates}
use comfyui_runpod_agentic_n.Remote.Post.{Leads, continue-Leads, Leads-at}
use comfyui_runpod_agentic_n.Runner.Pods.{
  VolumeKey, same_key, volume_of, wanted_volume, volume_for, without_pending, materialize_each,
  materialize_network_volumes,
}

abbrev pub Volumes : Type 0
Volumes = List (VolumeKey × String)

abbrev pub given : Volumes → Option VolumeKey → Option String
given vs none = none
given vs (some key) = volume_of vs key

abbrev pub Extends : Volumes → Volumes → Type 0
Extends us vs =
    (key : VolumeKey) (id : String) → volume_of us key ≡ some id → volume_of vs key ≡ some id

same_key-parts :
    (a b : String) (n m : ℕ) (d e : String)
    → same_key (a, n, d) (b, m, e) ≡ true
    → (a ≡ b) × (n ≡ m) × (d ≡ e)
same_key-parts a b n m d e h = ground (arith, eq_iff a b, eq_iff d e)

same_key-eq :
    (j k : VolumeKey) (vs : Volumes) → same_key j k ≡ true → volume_of vs j ≡ volume_of vs k
same_key-eq (a, n, d) (b, m, e) vs h =
    let p = same_key-parts a b n m d e h in rw (p.0, p.1, p.2) refl

same_key_refl : (k : VolumeKey) → same_key k k ≡ true
same_key_refl (a, n, d) = ground (arith, eq_iff a a, eq_iff d d)

-- The volumes that the calls of a history ask to be created, the newest first.
abbrev pub asked_for : List Call → List VolumeKey
asked_for [] = []
asked_for (Call.create_volume name size center ∷ h) = (name, size, center) ∷ asked_for h
asked_for (_ ∷ h) = asked_for h

abbrev pub creation : VolumeKey → Call
creation (name, size, center) = Call.create_volume name size center

-- Each volume is the answer to a call that asks for its name, size and data center, and none is asked for
-- twice.
abbrev pub AreCreated : Outside → Volumes → Type 0
AreCreated o [] = Unit
AreCreated o ((key, id) ∷ vs) =
    (volume_of vs key ≡ none)
    × ((h : List Call) × (o.volume (creation key ∷ h) ≡ ok id))
    × AreCreated o vs

-- The calls are those of the volumes, on top of those before.
pub record IsMade (o : Outside) (before : List VolumeKey) (vs : Volumes) (h : List Call)
    : Type 0 where
  pub created : AreCreated o vs
  pub calls : asked_for h ≡ map (λ v. v.0) vs ++ before

-- An event asks for no volume.
abbrev SameCalls : Relation
SameCalls v w = asked_for w.history ≡ asked_for v.history

-- Whether a volume is the one that is asked for, and whether some resource asks for it.
abbrev pub is_asked_by : VolumeKey → Option VolumeKey → Bool
is_asked_by k none = false
is_asked_by k (some key) = same_key key k

abbrev pub is_asked : VolumeKey → List ResourcePlan → Bool
is_asked k [] = false
is_asked k (resource ∷ rest) = is_asked_by k (wanted_volume resource) || is_asked k rest

-- What is returned for a key: the volume of the list, which has what it had.
record IsGiven (us : Volumes) (key : Option VolumeKey) (r : Option String × Volumes) : Type 0 where
  kept : Extends us r.1
  only :
      (k : VolumeKey)
      → is_some (volume_of r.1 k) ≡ true
      → (is_some (volume_of us k) || is_asked_by k key) ≡ true
  found : r.0 ≡ given r.1 key
  there : is_some r.0 ≡ is_some key

same_only :
    (us : Volumes) (key k : VolumeKey) (id : String)
    → same_key key k ≡ false
    → is_some (volume_of ((key, id) ∷ us) k) ≡ true
    → is_some (volume_of us k) ≡ true
unfolding volume_of
same_only us key k id s = rw s (λ e. e)

new-IsGiven :
    (us : Volumes) (key : VolumeKey) (id : String)
    → volume_of us key ≡ none
    → IsGiven us (some key) (some id, (key, id) ∷ us)
unfolding volume_of
new-IsGiven us key id h = record {
  kept = λ k v e. elim (Bool-cases (same_key key k)) [
    | inl s ↦ absurd (ground (arith, same_key-eq key k us s))
    | inr s ↦ rw s e
  ];
  only = λ k e. elim (Bool-cases (same_key key k)) [
    | inl s ↦ rw s (ground arith)
    | inr s ↦ rw (s, same_only us key k id s e) refl
  ];
  found = rw (same_key_refl key) refl;
  there = refl;
}

same_calls : IsPreorder SameCalls
same_calls = record { stays = λ w. refl; joins = λ u v w h k. k ∙ h }

event-SameCalls :
    (o : Outside) (run_id event_type message : String) (resource_id : Option String)
    (payload : Payload)
    → Relates SameCalls (event o run_id event_type message resource_id payload)
event-SameCalls o run_id event_type message resource_id payload =
    event-Relates SameCalls same_calls o run_id event_type message resource_id payload (λ w. refl)
      (λ w. refl) (λ w id now t h. refl)

module _ (o : Outside) (plan : DeploymentPlan) (before : List VolumeKey) (us : Volumes) where
  -- What is returned for a key and the world that it leaves.
  Given : Option VolumeKey → Option String × Volumes → World → Type 0
  Given key r w = IsGiven us key r × IsMade o before r.1 w.history

  recorded-Given :
      (key : VolumeKey) (id : String) (w : World) (r : Outcome (Unit {0}) × World)
      → volume_of us key ≡ none
      → o.volume (creation key ∷ w.history) ≡ ok id
      → IsMade o before us w.history
      → asked_for r.1.history ≡ asked_for (creation key ∷ w.history)
      → Leads (Given (some key)) (continue r (λ _. pure (some id, (key, id) ∷ us)))
  unfolding Given
  recorded-Given (name, size, center) id w (returned a, v) n e made same = (
    new-IsGiven us (name, size, center) id n,
    record {
      created = (n, (w.history, e), made.created);
      calls = same ∙ ap (λ l. (name, size, center) ∷ l) made.calls;
    },
  )
  recorded-Given key id w (raised x, v) n e made same = tt
  recorded-Given key id w (unfinished, v) n e made same = tt

  volume_for-Given :
      (key : Option VolumeKey) (w : World)
      → IsMade o before us w.history
      → Leads (Given key) (volume_for o plan us key w)
  unfolding volume_for Given ◌>>=◌
  volume_for-Given none w made = (
    record { kept = λ k id h. h; only = λ k e. ground (arith, e); found = refl; there = refl },
    made,
  )
  volume_for-Given (some (name, size, center)) w made =
      let key : VolumeKey = (name, size, center) in
      let asked : World = record {
        tables = w.tables;
        history = Call.create_volume name size center ∷ w.history;
      } in
      elim (Option-cases (volume_of us key)) [
        | inl n ↦ rw n (elim (Result-cases (o.volume asked.history)) [
          | inl (x, e) ↦ rw e tt
          | inr (id, e) ↦ rw e (elim (Bool-cases (is_empty id)) [
            | inl z ↦ rw z tt
            | inr z ↦ rw z (
                recorded-Given key id w
                  (event o plan.run_id "network_volume_created" name none
                    (Payload.volume id size center) asked)
                  n e made (event-SameCalls o plan.run_id _ _ _ _ asked))
          ])
        ])
        | inr (id, e) ↦ rw e (
          record {
            kept = λ k v h. h;
            only = λ k q. ground (arith, q);
            found = sym e;
            there = refl;
          },
          made,
        )
      ]

-- Every volume of a list is found in each list that has what it has.
listed :
    (us vs : Volumes)
    → ((k : VolumeKey) → is_some (volume_of vs k) ≡ true → is_some (volume_of us k) ≡ true)
    → All (λ v. (is_some (volume_of us v.0) || false) ≡ true) vs
unfolding volume_of
listed us [] h = tt
listed us ((key, id) ∷ vs) h = (
  ground (arith, h key (rw (same_key_refl key) refl)),
  listed us vs
      (λ k e. h k (elim (Bool-cases (same_key key k)) [ inl s ↦ rw s refl | inr s ↦ rw s e ])),
)

abbrev pub settle : Volumes → ResourcePlan → ResourcePlan
settle vs resource = without_pending resource (given vs (wanted_volume resource))

-- Each resource is as planned, but has the volume of the list that it wants, and no volume to be created;
-- the volumes of the list are those that were created, and each was asked for by a resource, or was there.
pub record IsSettled (o : Outside) (before : List VolumeKey) (us : Volumes)
    (resources settled : List ResourcePlan) (h : List Call) : Type 0 where
  pub volumes : Volumes
  pub kept : Extends us volumes
  pub same : settled ≡ map (settle volumes) resources
  pub all_given :
      All (λ r. is_some (given volumes (wanted_volume r)) ≡ is_some (wanted_volume r)) resources
  pub made : IsMade o before volumes h
  pub asked : All (λ v. (is_some (volume_of us v.0) || is_asked v.0 resources) ≡ true) volumes

given_kept :
    (us vs : Volumes) (key : Option VolumeKey) (got : Option String)
    → Extends us vs
    → got ≡ given us key
    → is_some got ≡ is_some key
    → given vs key ≡ got
given_kept us vs none got k e t = sym e
given_kept us vs (some key) none k e t = absurd (cc)
given_kept us vs (some key) (some id) k e t = k key id (sym e)

module _ (o : Outside) (plan : DeploymentPlan) (before : List VolumeKey) where
  cons-IsSettled :
      (us : Volumes) (resource : ResourcePlan) (rest later : List ResourcePlan)
      (r : Option String × Volumes) (h : List Call)
      → IsGiven us (wanted_volume resource) r
      → IsSettled o before r.1 rest later h
      → IsSettled o before us (resource ∷ rest) (without_pending resource r.0 ∷ later) h
  cons-IsSettled us resource rest later r h g s =
      let e = given_kept r.1 s.volumes (wanted_volume resource) r.0 s.kept g.found g.there in
      record {
        volumes = s.volumes;
        kept = λ k v p. s.kept k v (g.kept k v p);
        same =
            ap (λ v. without_pending resource v ∷ later) (sym e)
            ∙ ap (λ l. settle s.volumes resource ∷ l) s.same;
        all_given = (ap is_some e ∙ g.there, s.all_given);
        made = s.made;
        asked =
            All-imp (λ v. (is_some (volume_of r.1 v.0) || is_asked v.0 rest) ≡ true)
              (λ v. (is_some (volume_of us v.0) || is_asked v.0 (resource ∷ rest)) ≡ true)
              (λ v q. ground (arith, g.only v.0)) s.volumes s.asked;
      }

  Settled : Volumes → List ResourcePlan → List ResourcePlan → World → Type 0
  Settled us resources settled w = IsSettled o before us resources settled w.history

  materialize_each-IsSettled :
      (us : Volumes) (resources : List ResourcePlan) (w : World)
      → IsMade o before us w.history
      → Leads (Settled us resources) (materialize_each o plan us resources w)
  unfolding materialize_each Settled Given ◌>>=◌
  materialize_each-IsSettled us [] w made = record {
    volumes = us;
    kept = λ k v h. h;
    same = refl;
    all_given = tt;
    made = made;
    asked = listed us us (λ k e. e);
  }
  materialize_each-IsSettled us (resource ∷ rest) w made =
      continue-Leads (Given o plan before us (wanted_volume resource))
        (Settled us (resource ∷ rest)) (volume_for o plan us (wanted_volume resource) w) _
        (volume_for-Given o plan before us (wanted_volume resource) w made)
        λ r v g.
          continue-Leads (Settled r.1 rest) (Settled us (resource ∷ rest))
            (materialize_each o plan r.1 rest v) _ (materialize_each-IsSettled r.1 rest v g.1)
            λ later u s. cons-IsSettled us resource rest later r u.history g.0 s

-- If the volumes of a plan are made, every resource is as it was planned, but for the volume: a resource
-- that asks for one by name, size and data center has it, all that ask for the same have the same, and
-- none has a volume left to be created. Each of these volumes is one that some resource asks for, and the
-- answer to a call that asks for this name, size and data center; and the calls of the history that create
-- volumes are those before and one for each of these.
pub materialize_network_volumes-IsSettled :
    (o : Outside) (plan : DeploymentPlan) (w v : World) (settled : DeploymentPlan)
    → materialize_network_volumes o plan w ≡ (returned settled, v)
    → IsSettled o (asked_for w.history) [] plan.resources settled.resources v.history
unfolding materialize_network_volumes Settled ◌>>=◌
materialize_network_volumes-IsSettled o plan w v settled h =
    let before = asked_for w.history in
    let P : DeploymentPlan → World → Type 0 =
      λ p u. IsSettled o before [] plan.resources p.resources u.history in
    Leads-at P (materialize_network_volumes o plan w) settled v
      (continue-Leads (Settled o plan before [] plan.resources) P
        (materialize_each o plan [] plan.resources w) _
        (materialize_each-IsSettled o plan before [] plan.resources w
          (record { created = tt; calls = refl }))
        (λ rs u s. s))
      h
