-- ===== src/Map.antt =====
-- `BTreeMap<String, V>` and `BTreeSet<(String, String)>`: entries in key order.
pub mod Laws
use nixdeploy_corbet_ch.Base.{
  if◌then◌else◌, Ordering, Bool, false, ◌&&◌, ◌||◌, Option, none, some, List, [], ◌∷◌,
}
use nixdeploy_corbet_ch.Text.{Text, ◌==◌, compare_text}

abbrev pub BTreeMap {ℓ} : Type ℓ → Type ℓ
BTreeMap V = List (Text × V)

module _ {ℓ} {V : Type ℓ} where
  unfoldable pub get : BTreeMap V → Text → Option V
  get [] k = none
  get ((j, v) ∷ m) k = if j == k then some v else get m k

  unfoldable pub contains_key : BTreeMap V → Text → Bool
  contains_key [] k = false
  contains_key ((j, v) ∷ m) k = j == k || contains_key m k

  -- An entry is put at its place in the order, or replaces the one with its key.
  unfoldable pub insert : BTreeMap V → Text → V → BTreeMap V
  insert [] k v = (k, v) ∷ []
  insert ((j, w) ∷ m) k v =
      let further = (j, w) ∷ insert m k v in
      elim (compare_text k j) [
        | Ordering.lt ↦ (k, v) ∷ (j, w) ∷ m
        | Ordering.eq ↦ (k, v) ∷ m
        | Ordering.gt ↦ further
      ]

abbrev pub Leaf : Type 0
Leaf = Text × Text

abbrev pub same_pair : Leaf → Leaf → Bool
same_pair (a, b) (c, d) = a == c && b == d

abbrev pub compare_pair : Leaf → Leaf → Ordering
compare_pair (a, b) (c, d) = elim (compare_text a c) [
  | Ordering.lt ↦ Ordering.lt
  | Ordering.eq ↦ compare_text b d
  | Ordering.gt ↦ Ordering.gt
]

abbrev pub PairSet : Type 0
PairSet = List Leaf

unfoldable pub insert_pair : PairSet → Leaf → PairSet
insert_pair [] p = p ∷ []
insert_pair (q ∷ s) p =
    let further = q ∷ insert_pair s p in
    elim (compare_pair p q) [
      | Ordering.lt ↦ p ∷ q ∷ s
      | Ordering.eq ↦ q ∷ s
      | Ordering.gt ↦ further
    ]

unfoldable pub contains_pair : PairSet → Leaf → Bool
contains_pair [] p = false
contains_pair (q ∷ s) p = same_pair q p || contains_pair s p

-- `BTreeSet<String>`, of which the program asks for membership and in whose order it walks.
abbrev pub contains : List Text → Text → Bool
contains [] k = false
contains (j ∷ s) k = j == k || contains s k

-- `BTreeSet<String>::insert`
unfoldable pub insert_text : List Text → Text → List Text
insert_text [] k = k ∷ []
insert_text (j ∷ s) k =
    let further = j ∷ insert_text s k in
    elim (compare_text k j) [
      | Ordering.lt ↦ k ∷ j ∷ s
      | Ordering.eq ↦ j ∷ s
      | Ordering.gt ↦ further
    ]

-- A host: an entry for each of its planes.
pub record HostOf {ℓ} (V : Type ℓ) : Type ℓ where
  pub planes : BTreeMap V
