-- ===== src/Contracts/Merge.antt =====
-- What a merge of contracts holds: for every key the last contract wins, and lists are joined.
use comfyui_runpod_agentic_n.Base.{
  String, ◌≡◌, refl, ap, sym, Option, none, some, List, [], ◌∷◌, ◌++◌, arith, if◌then◌else◌,
  is_some,
}
use comfyui_runpod_agentic_n.Base.Dict.{Dict, get, update, last_of, get-update}
use comfyui_runpod_agentic_n.Specs.{RuntimeContract}
use comfyui_runpod_agentic_n.Contracts.{empty_contract, merge_into, merge_from, merge_contracts}
use mathlib.Core.List.{append-nil, append_assoc}

abbrev pub or_else : Option String → Option String → Option String
or_else later earlier = if is_some later then later else earlier

merge_into-none : (acc : RuntimeContract) → merge_into acc none ≡ acc
unfolding merge_into
merge_into-none acc = refl

-- A dict that contracts carry: the environment or the files.
module _ (part : RuntimeContract → Dict String) (starts : part empty_contract ≡ [])
    (joins : (a c : RuntimeContract)
      → part (merge_into a (some c)) ≡ update (part a) (part c)) where
  -- The value of a key in the last contract of the list that sets it.
  abbrev latest : List (Option RuntimeContract) → String → Option String
  latest [] k = none
  latest (none ∷ cs) k = latest cs k
  latest (some c ∷ cs) k = or_else (latest cs k) (last_of (part c) k)

  get-merge_from :
      (acc : RuntimeContract) (cs : List (Option RuntimeContract)) (k : String)
      → get (part (merge_from acc cs)) k ≡ or_else (latest cs k) (get (part acc) k)
  unfolding merge_from
  get-merge_from acc [] k = refl
  get-merge_from acc (none ∷ cs) k = rw (merge_into-none acc) (get-merge_from acc cs k)
  get-merge_from acc (some c ∷ cs) k = ground (
    arith,
    get-merge_from (merge_into acc (some c)) cs k,
    ap (λ (d : Dict String). get d k) (joins acc c),
    get-update (part acc) (part c) k,
  )

  get-merge_contracts :
      (cs : List (Option RuntimeContract)) (k : String)
      → get (part (merge_contracts cs)) k ≡ latest cs k
  unfolding merge_contracts get
  get-merge_contracts cs k =
      ground (arith, get-merge_from empty_contract cs k, ap (λ (d : Dict String). get d k) starts)

  latest-append :
      (xs ys : List (Option RuntimeContract)) (k : String)
      → latest (xs ++ ys) k ≡ or_else (latest ys k) (latest xs k)
  latest-append [] ys k = ground arith
  latest-append (none ∷ xs) ys k = latest-append xs ys k
  latest-append (some c ∷ xs) ys k = ground (arith, latest-append xs ys k)

  pub get-merge-append :
      (xs ys : List (Option RuntimeContract)) (k : String)
      → get (part (merge_contracts (xs ++ ys))) k
        ≡ or_else (get (part (merge_contracts ys)) k) (get (part (merge_contracts xs)) k)
  get-merge-append xs ys k =
      rw (get-merge_contracts (xs ++ ys) k, get-merge_contracts ys k, get-merge_contracts xs k)
        (latest-append xs ys k)

-- A list that contracts carry: the secrets, the ports or the commands.
module _ {A : Type 0} (part : RuntimeContract → List A) (starts : part empty_contract ≡ [])
    (joins : (a c : RuntimeContract) → part (merge_into a (some c)) ≡ part a ++ part c) where
  abbrev gather : List (Option RuntimeContract) → List A
  gather [] = []
  gather (none ∷ cs) = gather cs
  gather (some c ∷ cs) = part c ++ gather cs

  merge_from-gather :
      (acc : RuntimeContract) (cs : List (Option RuntimeContract))
      → part (merge_from acc cs) ≡ part acc ++ gather cs
  unfolding merge_from
  merge_from-gather acc [] = sym (append-nil (part acc))
  merge_from-gather acc (none ∷ cs) = rw (merge_into-none acc) (merge_from-gather acc cs)
  merge_from-gather acc (some c ∷ cs) =
      simp (merge_from-gather (merge_into acc (some c)) cs, joins, append_assoc)

  gather-append :
      (xs ys : List (Option RuntimeContract)) → gather (xs ++ ys) ≡ gather xs ++ gather ys
  gather-append [] ys = refl
  gather-append (none ∷ xs) ys = gather-append xs ys
  gather-append (some c ∷ xs) ys = simp (gather-append xs ys, append_assoc)

  merge-gather : (cs : List (Option RuntimeContract)) → part (merge_contracts cs) ≡ gather cs
  unfolding merge_contracts
  merge-gather cs = rw (merge_from-gather empty_contract cs, starts) refl

  pub merge-append :
      (xs ys : List (Option RuntimeContract))
      → part (merge_contracts (xs ++ ys)) ≡ part (merge_contracts xs) ++ part (merge_contracts ys)
  merge-append xs ys =
      rw (merge-gather (xs ++ ys), merge-gather xs, merge-gather ys) (gather-append xs ys)

-- Merging two lists of contracts, one after the other, is the merge of the joined list: at every
-- key of the environment and of the files the second merge wins where it has the key and the first
-- stands otherwise, and the secrets, the ports and the commands are those of the first merge
-- followed by those of the second.
pub merge_contracts-append :
    (xs ys : List (Option RuntimeContract)) (k : String)
    → let xy = merge_contracts (xs ++ ys) in
      let x = merge_contracts xs in
      let y = merge_contracts ys in
      (get xy.env.values k ≡ or_else (get y.env.values k) (get x.env.values k))
      × (get xy.files k ≡ or_else (get y.files k) (get x.files k))
      × (xy.env.secrets ≡ x.env.secrets ++ y.env.secrets)
      × (xy.ports ≡ x.ports ++ y.ports)
      × (xy.commands ≡ x.commands ++ y.commands)
unfolding merge_into
merge_contracts-append xs ys k = (
  get-merge-append (λ c. c.env.values) refl (λ a c. refl) xs ys k,
  get-merge-append (λ c. c.files) refl (λ a c. refl) xs ys k,
  merge-append (λ c. c.env.secrets) refl (λ a c. refl) xs ys,
  merge-append (λ c. c.ports) refl (λ a c. refl) xs ys,
  merge-append (λ c. c.commands) refl (λ a c. refl) xs ys,
)
