-- ===== src/Release/Selection.antt =====
-- Which leaves a promotion selects, how they are put into a base, and the tests on them.
pub mod Laws
pub mod Selected
use nixdeploy_corbet_ch.Release.{
  ReleasePlaneEntry, ReleaseHostEntry, DeploymentSet, ReleasePlaneEntry-discrete,
  DeploymentSet-discrete,
}
use nixdeploy_corbet_ch.Base.{
  if◌then◌else◌, is_empty, any, push_if, Result, ok, err, Bool, true, false, not, ◌&&◌, ◌||◌,
  Option, none, some, List, [], ◌∷◌, ◌++◌,
}
use nixdeploy_corbet_ch.Text.{Text}
use nixdeploy_corbet_ch.Map.{
  BTreeMap, get, contains_key, insert, Leaf, PairSet, insert_pair, contains, HostOf,
}

pub data SelectionProblem : Type 0 where
  host_absent plane_absent : Text → SelectionProblem
  nothing_selected : SelectionProblem

abbrev pub plane_of {ℓ} : {V : Type ℓ} → Option (HostOf V) → Text → Option V
plane_of none plane = none
plane_of (some host) plane = get host.planes plane

-- `hosts.get(host).and_then(|h| h.planes.get(plane))`
unfoldable pub leaf {ℓ} : {V : Type ℓ} → BTreeMap (HostOf V) → Leaf → Option V
leaf hosts (host, plane) = plane_of (get hosts host) plane

unfoldable pub absent_hosts {ℓ} :
    {V : Type ℓ} → BTreeMap (HostOf V) → List Text → List SelectionProblem
absent_hosts candidates [] = []
absent_hosts candidates (host ∷ hosts) =
    push_if (not (contains_key candidates host)) (host_absent host) ++ absent_hosts candidates hosts

abbrev has_plane {ℓ} : {V : Type ℓ} → Text → Text × (HostOf V) → Bool
has_plane plane (name, host) = contains_key host.planes plane

unfoldable pub absent_planes {ℓ} :
    {V : Type ℓ} → BTreeMap (HostOf V) → List Text → List SelectionProblem
absent_planes candidates [] = []
absent_planes candidates (plane ∷ planes) =
    push_if (not (any (has_plane plane) candidates)) (plane_absent plane)
    ++ absent_planes candidates planes

-- A selector with no names lets every name pass.
abbrev pub passes : List Text → Text → Bool
passes names name = is_empty names || contains names name

unfoldable pub select_planes {ℓ} : {V : Type ℓ} → Text → List Text → BTreeMap V → PairSet → PairSet
select_planes host planes [] selected = selected
select_planes host planes ((plane, entry) ∷ rest) selected =
    select_planes host planes rest
      (if passes planes plane then insert_pair selected (host, plane) else selected)

unfoldable pub select_hosts {ℓ} :
    {V : Type ℓ} → List Text → List Text → BTreeMap (HostOf V) → PairSet → PairSet
unfolding select_planes
select_hosts hosts planes [] selected = selected
select_hosts hosts planes ((host, entry) ∷ rest) selected =
    select_hosts hosts planes rest
      (if passes hosts host then select_planes host planes entry.planes selected else selected)

unfoldable pub select_targets {ℓ} :
    {V : Type ℓ}
    → BTreeMap (HostOf V)
    → List Text
    → List Text
    → Result PairSet (List SelectionProblem)
unfolding absent_hosts absent_planes select_hosts
select_targets candidates hosts planes =
    let selected = select_hosts hosts planes candidates [] in
    elim (absent_hosts candidates hosts
      ++ (absent_planes candidates planes ++ push_if (is_empty selected) nothing_selected)) [
        | [] ↦ ok selected
        | p ∷ ps ↦ err (p ∷ ps)
      ]

-- `hosts.entry(host).or_insert_with(empty).planes.insert(plane, entry)`
unfoldable pub put_leaf {ℓ} : {V : Type ℓ} → BTreeMap (HostOf V) → Leaf → V → BTreeMap (HostOf V)
put_leaf hosts (host, plane) entry = insert hosts host (record {
  planes = insert (elim (get hosts host) [ none ↦ [] | some old ↦ old.planes ]) plane entry;
})

-- `candidates.hosts[host].planes[plane]` panics on a missing key; here the leaf is passed over.
unfoldable pub copy_leaf {ℓ} :
    {V : Type ℓ} → BTreeMap (HostOf V) → BTreeMap (HostOf V) → Leaf → BTreeMap (HostOf V)
unfolding put_leaf
copy_leaf hosts candidates p = elim (leaf candidates p) [
  | none ↦ hosts
  | some entry ↦ put_leaf hosts p entry
]

unfoldable pub compose_hosts {ℓ} :
    {V : Type ℓ} → BTreeMap (HostOf V) → BTreeMap (HostOf V) → PairSet → BTreeMap (HostOf V)
unfolding copy_leaf
compose_hosts hosts candidates [] = hosts
compose_hosts hosts candidates (p ∷ selected) =
    compose_hosts (copy_leaf hosts candidates p) candidates selected

unfoldable pub compose_selected : DeploymentSet → DeploymentSet → PairSet → DeploymentSet
unfolding compose_hosts
compose_selected base candidates selected = record base {
  hosts = compose_hosts base.hosts candidates.hosts selected;
}

-- `==` on optional leaves.
unfoldable pub same_leaf : Option ReleasePlaneEntry → Option ReleasePlaneEntry → Bool
same_leaf none none = true
same_leaf none (some b) = false
same_leaf (some a) none = false
same_leaf (some a) (some b) = elim (ReleasePlaneEntry-discrete a b) [ yes e ↦ true | no ne ↦ false ]

unfoldable pub same_set : DeploymentSet → DeploymentSet → Bool
same_set a b = elim (DeploymentSet-discrete a b) [ yes e ↦ true | no ne ↦ false ]

-- `selected.iter().all(…)` of both tests on leaves.
unfoldable pub leaves_equal : BTreeMap ReleaseHostEntry → BTreeMap ReleaseHostEntry → PairSet → Bool
unfolding same_leaf
leaves_equal left right [] = true
leaves_equal left right (p ∷ selected) =
    same_leaf (leaf left p) (leaf right p) && leaves_equal left right selected

unfoldable pub selection_already_present :
    Option DeploymentSet → DeploymentSet → PairSet → Bool → Bool
unfolding leaves_equal same_set
selection_already_present none candidate selected full = false
selection_already_present (some current) candidate selected full =
    if full then same_set current candidate else leaves_equal current.hosts candidate.hosts selected

unfoldable pub selected_leaves_unchanged : DeploymentSet → DeploymentSet → PairSet → Bool
unfolding leaves_equal
selected_leaves_unchanged expected current selected =
    leaves_equal expected.hosts current.hosts selected
