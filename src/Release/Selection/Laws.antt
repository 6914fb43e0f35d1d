-- ===== src/Release/Selection/Laws.antt =====
-- Composition acts on leaves: what a promotion selects comes from its candidates, and nothing else
-- changes.
use nixdeploy_corbet_ch.Release.{ReleasePlaneEntry, ReleaseHostEntry, ReleasePlaneEntry-discrete}
use nixdeploy_corbet_ch.Release.Selection.{
  plane_of, leaf, put_leaf, copy_leaf, compose_hosts, same_leaf, leaves_equal,
}
use mathlib.Core.Option.{some-injective}
use nixdeploy_corbet_ch.Base.{
  if◌then◌else◌, Bool-cases, Option-cases, ◌≡◌, refl, ap, subst, ◌∙◌, ◌↔◌, inl, inr, Bool, true,
  false, ◌||◌, Option, none, some, [], ◌∷◌, arith,
}
use nixdeploy_corbet_ch.Text.{Text, ◌==◌}
use nixdeploy_corbet_ch.Text.Laws.{eq_sound}
use nixdeploy_corbet_ch.Map.{BTreeMap, get, insert, Leaf, same_pair, PairSet, contains_pair, HostOf}
use nixdeploy_corbet_ch.Map.Laws.{get-insert, same_pair_iff}

abbrev pub or_else {ℓ} : {A : Type ℓ} → Option A → Option A → Option A
or_else none b = b
or_else (some a) b = some a

old_planes {ℓ} : {V : Type ℓ} → Option (HostOf V) → BTreeMap V
old_planes none = []
old_planes (some old) = old.planes

plane_of-old_planes {ℓ} :
    {V : Type ℓ} (o : Option (HostOf V)) (plane : Text)
    → get (old_planes o) plane ≡ plane_of o plane
unfolding old_planes get
plane_of-old_planes none plane = refl
plane_of-old_planes (some old) plane = refl

-- A leaf that is put is found, and every other leaf is as it was.
pub leaf-put_leaf {ℓ} :
    {V : Type ℓ} (hosts : BTreeMap (HostOf V)) (p q : Leaf) (entry : V)
    → leaf (put_leaf hosts p entry) q ≡ (if same_pair p q then some entry else leaf hosts q)
unfolding leaf put_leaf old_planes
leaf-put_leaf hosts (h, n) (i, m) entry =
    rw (get-insert hosts h (record { planes = insert (old_planes (get hosts h)) n entry }) i, leaf)
      (elim (Bool-cases (h == i)) [
        | inl e ↦
            let same : h ≡ i = eq_sound h i e in
            rw e (
              get-insert (old_planes (get hosts h)) n entry m
              ∙ (let rest = plane_of-old_planes (get hosts h) m in rw rest (rw same refl)))
        | inr e ↦ rw e refl
      ])

leaf-copy_leaf {ℓ} :
    {V : Type ℓ} (hosts candidates : BTreeMap (HostOf V)) (p q : Leaf)
    → leaf (copy_leaf hosts candidates p) q
      ≡ (if same_pair p q then or_else (leaf candidates q) (leaf hosts q) else leaf hosts q)
unfolding copy_leaf
leaf-copy_leaf {V = V} hosts candidates p q = elim (Option-cases (leaf candidates p)) [
  | inl e ↦
      rw (e, copy_leaf)
        (elim (Bool-cases (same_pair p q)) [ inl s ↦ rw s (missing e s) | inr s ↦ rw s ])
  | inr (entry, e) ↦
      rw (e, copy_leaf)
        (rw (leaf-put_leaf hosts p q entry)
          (elim (Bool-cases (same_pair p q)) [ inl s ↦ rw s (found entry e s) | inr s ↦ rw s ]))
]
  where
    missing :
        leaf candidates p ≡ none
        → same_pair p q ≡ true
        → leaf hosts q ≡ or_else (leaf candidates q) (leaf hosts q)
    missing e s =
        let e2 : leaf candidates q ≡ none =
          subst (λ r. leaf candidates r ≡ none) ((same_pair_iff p q).0 s) e in
        rw e2

    found :
        (entry : V)
        → leaf candidates p ≡ some entry
        → same_pair p q ≡ true
        → some entry ≡ or_else (leaf candidates q) (leaf hosts q)
    found entry e s =
        let e2 : leaf candidates q ≡ some entry =
          subst (λ r. leaf candidates r ≡ some entry) ((same_pair_iff p q).0 s) e in
        rw e2

-- After composition a selected leaf is the candidates' one, where they have it, and any other leaf
-- is the base's.
pub leaf-compose_hosts {ℓ} :
    {V : Type ℓ} (hosts candidates : BTreeMap (HostOf V)) (selected : PairSet) (q : Leaf)
    → leaf (compose_hosts hosts candidates selected) q ≡ (
        if contains_pair selected q
        then or_else (leaf candidates q) (leaf hosts q)
        else leaf hosts q)
unfolding compose_hosts contains_pair
leaf-compose_hosts {V = V} hosts candidates [] q = refl
leaf-compose_hosts {V = V} hosts candidates (p ∷ selected) q =
    rw (leaf-compose_hosts (copy_leaf hosts candidates p) candidates selected q) (
      rw (leaf-copy_leaf hosts candidates p q)
        (merge (same_pair p q) (contains_pair selected q) (leaf candidates q) (leaf hosts q)))
  where
    merge :
        (same more : Bool) (a b : Option V)
        → (if more
            then or_else a (if same then or_else a b else b)
            else if same
            then or_else a b
            else b)
          ≡ (if same || more then or_else a b else b)
    merge true true none b = refl
    merge true true (some a) b = refl
    merge true false a b = refl
    merge false true a b = refl
    merge false false a b = refl

same_leaf_iff : (a b : Option ReleasePlaneEntry) → (same_leaf a b ≡ true) ↔ (a ≡ b)
unfolding same_leaf
same_leaf_iff none none = ground arith
same_leaf_iff none (some b) = ground arith
same_leaf_iff (some a) none = ground arith
same_leaf_iff (some a) (some b) =
    elim (ReleasePlaneEntry-discrete a b)
      as (λ d. (elim d [ yes e ↦ true | no ne ↦ false ] ≡ true) ↔ (some a ≡ some b)) [
        | yes e ↦ (λ _. ap some e, λ _. refl)
        | no ne ↦ (λ h. cc, λ h. absurd (ne (some-injective a b h)))
      ]

pub leaves_equal_sound :
    (left right : BTreeMap ReleaseHostEntry) (selected : PairSet) (q : Leaf)
    → leaves_equal left right selected ≡ true
    → contains_pair selected q ≡ true
    → leaf left q ≡ leaf right q
unfolding leaves_equal contains_pair
leaves_equal_sound left right [] q h m = cc
leaves_equal_sound left right (p ∷ selected) q h m = elim (Bool-cases (same_pair p q)) [
  | inl s ↦
      subst (λ r. leaf left r ≡ leaf right r) ((same_pair_iff p q).0 s)
        ((same_leaf_iff (leaf left p) (leaf right p)).0 (ground arith))
  | inr s ↦ leaves_equal_sound left right selected q (ground arith) (ground arith)
]

pub leaves_equal_complete :
    (left right : BTreeMap ReleaseHostEntry) (selected : PairSet)
    → ((q : Leaf) → contains_pair selected q ≡ true → leaf left q ≡ leaf right q)
    → leaves_equal left right selected ≡ true
unfolding leaves_equal contains_pair
leaves_equal_complete left right [] f = refl
leaves_equal_complete left right (p ∷ selected) f =
    rw ((same_leaf_iff (leaf left p) (leaf right p)).1 (f p (rw ((same_pair_iff p p).1 refl))))
      (leaves_equal_complete left right selected (λ q m. f q (ground (arith, m))))

-- The test on a selection holds exactly if the two sides have the same entry, or both none, at each
-- selected leaf.
pub leaves_equal_iff :
    (left right : BTreeMap ReleaseHostEntry) (selected : PairSet)
    → (leaves_equal left right selected ≡ true)
      ↔ ((q : Leaf) → contains_pair selected q ≡ true → leaf left q ≡ leaf right q)
leaves_equal_iff left right selected = (
  λ h q m. leaves_equal_sound left right selected q h m,
  leaves_equal_complete left right selected,
)
