-- ===== src/Nodes/Deploy/Volumes.antt =====
-- nodes.py: when the storage that a node builds has a volume.
use text.Mathlib.TextLemmas.{nil-append, cons-append}
use comfyui_runpod_agentic_n.Base.{
  ℕ, String, ◌<>◌, ◌≡◌, refl, ap, eq_iff, Bool, true, false, not, ◌||◌, Option, arith, is_empty,
  ◌=ℕ=◌, inl, inr, Bool-cases,
}
use comfyui_runpod_agentic_n.Base.Text.{strip}
use comfyui_runpod_agentic_n.Specs.{VolumeRetentionPolicy}
use comfyui_runpod_agentic_n.Validation.{has_volume}
use comfyui_runpod_agentic_n.Nodes.{generated_volume_id}
use comfyui_runpod_agentic_n.Nodes.Deploy.{build_network_storage}

is_nil : String → Bool
is_nil String.[] = true
is_nil (String.◌∷◌ c s) = false

nil_is_nil : is_nil "" ≡ true
unfolding is_nil
nil_is_nil = refl

append-not_nil : (a s : String) → is_nil (a <> ("-" <> s)) ≡ false
unfolding is_nil
append-not_nil String.[] s = rw (nil-append, cons-append) refl
append-not_nil (String.◌∷◌ c a) s = rw cons-append refl

append-nonempty : (a s : String) → is_empty (a <> ("-" <> s)) ≡ false
append-nonempty a s = elim (Bool-cases (is_empty (a <> ("-" <> s)))) [
  | inl e ↦
      absurd (cc (ap is_nil ((eq_iff (a <> ("-" <> s)) "").0 e), nil_is_nil, append-not_nil a s))
  | inr e ↦ e
]

generated_volume_id-nonempty :
    (uuid_hex : String) (node_id : Option String) (volume_name : String)
    → is_empty (generated_volume_id uuid_hex node_id volume_name) ≡ false
unfolding generated_volume_id
generated_volume_id-nonempty uuid_hex node_id volume_name = append-nonempty _ _

-- The storage that a node builds names a volume or can create one, as the validation wants, unless a
-- size is given without an id and without a data center.
pub build_network_storage-has_volume :
    (uuid_hex volume_id mount_path : String) (policy : VolumeRetentionPolicy) (size_gb : ℕ)
    (data_center volume_name : String) (node_id : Option String)
    → has_volume (
        build_network_storage uuid_hex volume_id mount_path policy size_gb data_center volume_name
          node_id)
      ≡ (not (is_empty (strip volume_id)) || (size_gb =ℕ= 0 || not (is_empty (strip data_center))))
unfolding build_network_storage
build_network_storage-has_volume uuid_hex volume_id mount_path policy size_gb data_center
      volume_name node_id =
    ground (arith, generated_volume_id-nonempty uuid_hex node_id volume_name)
