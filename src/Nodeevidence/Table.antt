-- ===== src/Nodeevidence/Table.antt =====
-- internal/nodeevidence: a map whose keys are a cluster and a node in it, as the association list of
-- its entries.
use openbao_attested_unseal.Prelude.{
  ◌≡◌, ◌↔◌, refl, Bool, true, ◌&&◌, Option, none, some, List, [], ◌∷◌, arith, if◌then◌else◌,
}
use openbao_attested_unseal.Prelude.Text.{Text, text_eq, text_eq_iff}

-- evidenceKey
pub record NodeKey : Type 0 where
  pub cluster_id : Text
  pub node_name : Text

unfoldable pub same_key : NodeKey → NodeKey → Bool
same_key j k = text_eq j.cluster_id k.cluster_id && text_eq j.node_name k.node_name

pub same_key_iff : (j k : NodeKey) → (same_key j k ≡ true) ↔ (j ≡ k)
unfolding same_key
same_key_iff j k = (
  λ h. ground (arith, text_eq_iff j.cluster_id k.cluster_id, text_eq_iff j.node_name k.node_name),
  λ e. ground (arith, text_eq_iff j.cluster_id k.cluster_id, text_eq_iff j.node_name k.node_name),
)

pub same_key_refl : (k : NodeKey) → same_key k k ≡ true
same_key_refl k = (same_key_iff k k).1 refl

module _ {ℓ} {V : Type ℓ} where
  -- m[k]
  unfoldable pub find : NodeKey → List (NodeKey × V) → Option V
  find k [] = none
  find k ((j, v) ∷ m) = if same_key j k then some v else find k m

  -- m[k] = v
  unfoldable pub store : NodeKey → V → List (NodeKey × V) → List (NodeKey × V)
  store k v [] = (k, v) ∷ []
  store k v ((j, w) ∷ m) = if same_key j k then (k, v) ∷ m else (j, w) ∷ store k v m

  -- delete(m, k)
  unfoldable pub remove : NodeKey → List (NodeKey × V) → List (NodeKey × V)
  remove k [] = []
  remove k ((j, w) ∷ m) = let rest = remove k m in if same_key j k then rest else (j, w) ∷ rest

  pub find-store :
      (k j : NodeKey) (v : V) (m : List (NodeKey × V))
      → find j (store k v m) ≡ (if same_key k j then some v else find j m)
  unfolding find store
  find-store k j v [] = refl
  find-store k j v ((i, w) ∷ m) =
      ground (arith, same_key_iff k j, same_key_iff i k, same_key_iff i j, find-store k j v m)

  pub find-remove :
      (k j : NodeKey) (m : List (NodeKey × V))
      → find j (remove k m) ≡ (if same_key k j then none else find j m)
  unfolding find remove
  find-remove k j [] = ground arith
  find-remove k j ((i, w) ∷ m) =
      ground (arith, same_key_iff k j, same_key_iff i k, same_key_iff i j, find-remove k j m)
