-- ===== src/VerifyRelease/Ascending.antt =====
-- The order of the targets in the inventory of src/verify_release.rs.
use nixdeploy_corbet_ch.VerifyRelease.{boot_targets, insert_all, insert_planes, insert_hosts}
use nixdeploy_corbet_ch.Release.{ReleasePlaneEntry, ReleaseHostEntry}
use nixdeploy_corbet_ch.Base.{Ordering, ◌≡◌, refl, ◌⊎◌, inl, inr, List, [], ◌∷◌, arith}
use nixdeploy_corbet_ch.Text.{Text, compare_text}
use nixdeploy_corbet_ch.Map.{BTreeMap, insert_text}

compare_text-flip : (s t : Text) → compare_text s t ≡ Ordering.gt → compare_text t s ≡ Ordering.lt
unfolding compare_text
compare_text-flip [] [] h = cc
compare_text-flip [] (d ∷ t) h = cc
compare_text-flip (c ∷ s) [] h = refl
compare_text-flip (c ∷ s) (d ∷ t) h = ground (arith, compare_text-flip s t)

abbrev pub IsAbove : Text → List Text → Type 0
IsAbove t [] = Unit
IsAbove t (u ∷ us) = compare_text t u ≡ Ordering.lt

-- Strictly ascending, as a BTreeSet is walked.
abbrev pub IsAscending : List Text → Type 0
IsAscending [] = Unit
IsAscending (t ∷ ts) = IsAbove t ts × IsAscending ts

Ordering-cases : (o : Ordering) → (o ≡ Ordering.lt) ⊎ ((o ≡ Ordering.eq) ⊎ (o ≡ Ordering.gt))
Ordering-cases Ordering.lt = inl refl
Ordering-cases Ordering.eq = inr (inl refl)
Ordering-cases Ordering.gt = inr (inr refl)

insert_text-IsAbove :
    (j k : Text) (s : List Text)
    → IsAbove j s
    → compare_text j k ≡ Ordering.lt
    → IsAbove j (insert_text s k)
unfolding insert_text
insert_text-IsAbove j k [] h l = l
insert_text-IsAbove j k (i ∷ s) h l = elim (Ordering-cases (compare_text k i)) [
  | inl e ↦ rw (e, insert_text, IsAbove) l
  | inr (inl e) ↦ rw (e, insert_text, IsAbove) h
  | inr (inr e) ↦ rw (e, insert_text, IsAbove) h
]

pub insert_text-IsAscending :
    (s : List Text) (k : Text) → IsAscending s → IsAscending (insert_text s k)
unfolding insert_text
insert_text-IsAscending [] k h = (tt, tt)
insert_text-IsAscending (j ∷ s) k h = elim (Ordering-cases (compare_text k j)) [
  | inl e ↦ rw (e, insert_text, IsAscending) (e, h)
  | inr (inl e) ↦ rw (e, insert_text, IsAscending) h
  | inr (inr e) ↦
      rw (e, insert_text, IsAscending)
        (insert_text-IsAbove j k s h.0 (compare_text-flip k j e), insert_text-IsAscending s k h.1)
]

insert_all-IsAscending : (s ts : List Text) → IsAscending s → IsAscending (insert_all s ts)
unfolding insert_all
insert_all-IsAscending s [] h = h
insert_all-IsAscending s (t ∷ ts) h =
    insert_all-IsAscending (insert_text s t) ts (insert_text-IsAscending s t h)

insert_planes-IsAscending :
    (s : List Text) (planes : BTreeMap ReleasePlaneEntry)
    → IsAscending s
    → IsAscending (insert_planes s planes)
unfolding insert_planes
insert_planes-IsAscending s [] h = h
insert_planes-IsAscending s ((name, plane) ∷ planes) h =
    insert_planes-IsAscending (insert_all s (plane.artifact.target ∷ boot_targets plane.boot))
      planes (insert_all-IsAscending s (plane.artifact.target ∷ boot_targets plane.boot) h)

pub insert_hosts-IsAscending :
    (s : List Text) (hosts : BTreeMap ReleaseHostEntry)
    → IsAscending s
    → IsAscending (insert_hosts s hosts)
unfolding insert_hosts
insert_hosts-IsAscending s [] h = h
insert_hosts-IsAscending s ((name, host) ∷ hosts) h =
    insert_hosts-IsAscending (insert_planes s host.planes) hosts
      (insert_planes-IsAscending s host.planes h)
