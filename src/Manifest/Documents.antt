-- ===== src/Manifest/Documents.antt =====
-- Whole manifests: an empty list of problems says that every host and every plane is in order.
use mathlib.Core.List.{map}
use nixdeploy_corbet_ch.StorePath.{looks_like_timestamp}
use nixdeploy_corbet_ch.Artifact.{blank}
use nixdeploy_corbet_ch.Manifest.{
  PlaneEntry, HostEntry, ManifestDoc, at, planes_problems, host_problems, hosts_problems, validate,
}
use nixdeploy_corbet_ch.Manifest.Valid.{
  IsPlane, append-eq_nil, push_if-eq_nil, not-eq_false, plane_problems-IsPlane,
  IsPlane-plane_problems,
}
use nixdeploy_corbet_ch.Base.{is_empty, All, ◌≡◌, refl, ◌↔◌, true, false, List, [], ◌∷◌}
use nixdeploy_corbet_ch.Text.{Text}
use nixdeploy_corbet_ch.Map.{BTreeMap}

abbrev pub IsPlaneAt : Text × PlaneEntry → Type 0
IsPlaneAt (name, plane) = IsPlane name plane

pub record IsHost (name : Text) (host : HostEntry) : Type 0 where
  pub named : blank name ≡ false
  pub inhabited : is_empty host.planes ≡ false
  pub planes : All IsPlaneAt host.planes

abbrev pub IsHostAt : Text × HostEntry → Type 0
IsHostAt (name, host) = IsHost name host

pub record IsManifest (doc : ManifestDoc) : Type 0 where
  pub revision : blank doc.revision ≡ false
  pub built_at : looks_like_timestamp doc.built_at ≡ true
  pub inhabited : is_empty doc.hosts ≡ false
  pub hosts : All IsHostAt doc.hosts

map-eq_nil : {A B : Type 0} (f : A → B) (xs : List A) → map f xs ≡ [] → xs ≡ []
map-eq_nil f [] h = refl
map-eq_nil f (x ∷ xs) h = cc

planes_problems-All :
    (host : Text) (planes : BTreeMap PlaneEntry)
    → planes_problems host planes ≡ []
    → All IsPlaneAt planes
unfolding planes_problems
planes_problems-All host [] h = tt
planes_problems-All host ((name, plane) ∷ planes) h =
    let (p, rest) = append-eq_nil _ _ h in
    (
      plane_problems-IsPlane name plane (map-eq_nil (at host name) _ p),
      planes_problems-All host planes rest,
    )

All-planes_problems :
    (host : Text) (planes : BTreeMap PlaneEntry)
    → All IsPlaneAt planes
    → planes_problems host planes ≡ []
unfolding planes_problems
All-planes_problems host [] v = refl
All-planes_problems host ((name, plane) ∷ planes) v =
    rw (IsPlane-plane_problems name plane v.0) (All-planes_problems host planes v.1)

host_problems-IsHost :
    (name : Text) (host : HostEntry) → host_problems name host ≡ [] → IsHost name host
unfolding host_problems
host_problems-IsHost name host h =
    let (b, h') = append-eq_nil _ _ h in
    let (e, p) = append-eq_nil _ _ h' in
    record {
      named = push_if-eq_nil _ _ b;
      inhabited = push_if-eq_nil _ _ e;
      planes = planes_problems-All name host.planes p;
    }

IsHost-host_problems :
    (name : Text) (host : HostEntry) → IsHost name host → host_problems name host ≡ []
unfolding host_problems
IsHost-host_problems name host v =
    rw (v.named, v.inhabited, All-planes_problems name host.planes v.planes)

hosts_problems-All : (hosts : BTreeMap HostEntry) → hosts_problems hosts ≡ [] → All IsHostAt hosts
unfolding hosts_problems
hosts_problems-All [] h = tt
hosts_problems-All ((name, host) ∷ hosts) h =
    let (p, rest) = append-eq_nil _ _ h in
    (host_problems-IsHost name host p, hosts_problems-All hosts rest)

All-hosts_problems : (hosts : BTreeMap HostEntry) → All IsHostAt hosts → hosts_problems hosts ≡ []
unfolding hosts_problems
All-hosts_problems [] v = refl
All-hosts_problems ((name, host) ∷ hosts) v =
    rw (IsHost-host_problems name host v.0) (All-hosts_problems hosts v.1)

pub validate-IsManifest : (doc : ManifestDoc) → validate doc ≡ [] → IsManifest doc
unfolding validate
validate-IsManifest doc h =
    let (r, h') = append-eq_nil _ _ h in
    let (b, h'') = append-eq_nil _ _ h' in
    let (e, p) = append-eq_nil _ _ h'' in
    record {
      revision = push_if-eq_nil _ _ r;
      built_at = not-eq_false _ (push_if-eq_nil _ _ b);
      inhabited = push_if-eq_nil _ _ e;
      hosts = hosts_problems-All doc.hosts p;
    }

IsManifest-validate : (doc : ManifestDoc) → IsManifest doc → validate doc ≡ []
unfolding validate
IsManifest-validate doc v =
    rw (v.revision, v.built_at, v.inhabited, All-hosts_problems doc.hosts v.hosts)

-- `validate` reports no problem exactly for the documents in which the revision is not blank, the
-- time is a timestamp, there are hosts, each host has a name and planes, and each plane is named
-- for its backend, has a store path for its target, and has the identity and boot roles that its
-- backend calls for.
pub validate_iff : (doc : ManifestDoc) → (validate doc ≡ []) ↔ IsManifest doc
validate_iff doc = (validate-IsManifest doc, IsManifest-validate doc)
