-- ===== src/VerifyRelease/Roots.antt =====
-- The inventory of src/verify_release.rs names exactly the roots of the release.

use mathlib.Core.List.Memᴰ
use mathlib.Core.List.{Memᴰ}
use nixdeploy_corbet_ch.VerifyRelease.{boot_targets, insert_all, insert_planes, insert_hosts}
use nixdeploy_corbet_ch.Release.{
  ReleaseBootArtifact, ReleaseBootRoles, ReleaseBootSpec, ReleasePlaneEntry, ReleaseHostEntry,
}
use nixdeploy_corbet_ch.Base.{
  any, ◌≡◌, refl, sym, ap, ◌∙◌, ◌↔◌, ◌⊎◌, inl, inr, Bool, true, false, ◌||◌, Option, none, some,
  List, [], ◌∷◌, arith,
}
use nixdeploy_corbet_ch.Text.{Text, ◌==◌}
use nixdeploy_corbet_ch.Text.Laws.{eq_sound, eq_refl, compare_text-eq}
use nixdeploy_corbet_ch.Map.{BTreeMap, contains, insert_text}

contains-insert_text :
    (s : List Text) (k t : Text) → contains (insert_text s k) t ≡ (k == t || contains s t)
unfolding insert_text
contains-insert_text [] k t = refl
contains-insert_text (j ∷ s) k t = ground (arith, compare_text-eq k j, contains-insert_text s k t)

-- The targets that a plane's entry names: its own, and those of its managed boot roles.
pub data IsRoot (entry : ReleasePlaneEntry) (t : Text) : Type 0 where
  target : entry.artifact.target ≡ t → IsRoot entry t
  primary :
      (roles : ReleaseBootRoles)
      → entry.boot ≡ some (ReleaseBootSpec.managed roles)
      → roles.primary_role.artifact.target ≡ t
      → IsRoot entry t
  nixrescue :
      (roles : ReleaseBootRoles) (role : ReleaseBootArtifact)
      → entry.boot ≡ some (ReleaseBootSpec.managed roles)
      → roles.nixrescue_role ≡ some role
      → role.artifact.target ≡ t
      → IsRoot entry t

-- Some plane of some host names the target.
abbrev pub NamesRoot : BTreeMap ReleaseHostEntry → Text → Type 0
NamesRoot hosts t =
    (h : Text × ReleaseHostEntry) × Memᴰ h hosts
    × ((p : Text × ReleasePlaneEntry) × Memᴰ p h.1.planes × IsRoot p.1 t)

or_true : (a b : Bool) → (a || b) ≡ true → (a ≡ true) ⊎ (b ≡ true)
or_true true b h = inl refl
or_true false b h = inr h

true_or : (a b : Bool) → (a ≡ true) ⊎ (b ≡ true) → (a || b) ≡ true
true_or a b h = ground (arith, h)

any-Memᴰ :
    {A : Type 0} (p : A → Bool) (xs : List A) → any p xs ≡ true → (x : A) × Memᴰ x xs × (p x ≡ true)
any-Memᴰ p [] h = absurd cc
any-Memᴰ p (x ∷ xs) h = elim (or_true (p x) (any p xs) h) [
  | inl e ↦ (x, Memᴰ.head refl, e)
  | inr e ↦ let (y, m, k) = any-Memᴰ p xs e in (y, Memᴰ.tail m, k)
]

Memᴰ-any :
    {A : Type 0} (p : A → Bool) (x : A) (xs : List A) → Memᴰ x xs → p x ≡ true → any p xs ≡ true
Memᴰ-any p x [] m h = absurd (Memᴰ.not-nil m)
Memᴰ-any p x (y ∷ xs) m h = elim (Memᴰ.cases_cons m) [
  | inl e ↦ true_or (p y) (any p xs) (inl (ap p (sym e) ∙ h))
  | inr k ↦ true_or (p y) (any p xs) (inr (Memᴰ-any p x xs k h))
]

contains-insert_all :
    (s ts : List Text) (t : Text) → contains (insert_all s ts) t ≡ (contains ts t || contains s t)
unfolding insert_all
contains-insert_all s [] t = refl
contains-insert_all s (u ∷ ts) t =
    ground (arith, contains-insert_all (insert_text s u) ts t, contains-insert_text s u t)

abbrev names : Text → Text × ReleasePlaneEntry → Bool
names t (name, plane) = contains (plane.artifact.target ∷ boot_targets plane.boot) t

contains-insert_planes :
    (s : List Text) (planes : BTreeMap ReleasePlaneEntry) (t : Text)
    → contains (insert_planes s planes) t ≡ (any (names t) planes || contains s t)
unfolding insert_planes
contains-insert_planes s [] t = refl
contains-insert_planes s ((name, plane) ∷ planes) t =
    let roots = plane.artifact.target ∷ boot_targets plane.boot in
    ground
      (arith, contains-insert_planes (insert_all s roots) planes t, contains-insert_all s roots t)

abbrev host_names : Text → Text × ReleaseHostEntry → Bool
host_names t (name, host) = any (names t) host.planes

contains-insert_hosts :
    (s : List Text) (hosts : BTreeMap ReleaseHostEntry) (t : Text)
    → contains (insert_hosts s hosts) t ≡ (any (host_names t) hosts || contains s t)
unfolding insert_hosts
contains-insert_hosts s [] t = refl
contains-insert_hosts s ((name, host) ∷ hosts) t = ground (
  arith,
  contains-insert_hosts (insert_planes s host.planes) hosts t,
  contains-insert_planes s host.planes t,
)

managed-IsRoot :
    (t : Text) (plane : ReleasePlaneEntry) (roles : ReleaseBootRoles)
    → plane.boot ≡ some (ReleaseBootSpec.managed roles)
    → contains (boot_targets (some (ReleaseBootSpec.managed roles))) t ≡ true
    → IsRoot plane t
managed-IsRoot t plane roles b h = elim (or_true (roles.primary_role.artifact.target == t) _ h) [
  | inl e ↦ IsRoot.primary roles b (eq_sound _ t e)
  | inr k ↦ rescue roles.nixrescue_role refl k
]
  where
    rescue :
        (o : Option ReleaseBootArtifact)
        → roles.nixrescue_role ≡ o
        → contains (elim o [ none ↦ [] | some role ↦ role.artifact.target ∷ [] ]) t ≡ true
        → IsRoot plane t
    rescue none e k = absurd cc
    rescue (some role) e k = IsRoot.nixrescue roles role b e (eq_sound _ t (ground (arith, k)))

boot-IsRoot :
    (t : Text) (plane : ReleasePlaneEntry) (boot : Option ReleaseBootSpec)
    → plane.boot ≡ boot
    → contains (boot_targets boot) t ≡ true
    → IsRoot plane t
boot-IsRoot t plane none e h = absurd cc
boot-IsRoot t plane (some ReleaseBootSpec.unmanaged) e h = absurd cc
boot-IsRoot t plane (some (ReleaseBootSpec.managed roles)) e h = managed-IsRoot t plane roles e h

names-IsRoot :
    (t name : Text) (plane : ReleasePlaneEntry) → names t (name, plane) ≡ true → IsRoot plane t
names-IsRoot t name plane h = elim (or_true (plane.artifact.target == t) _ h) [
  | inl e ↦ IsRoot.target (eq_sound _ t e)
  | inr k ↦ boot-IsRoot t plane plane.boot refl k
]

IsRoot-names :
    (t name : Text) (plane : ReleasePlaneEntry) → IsRoot plane t → names t (name, plane) ≡ true
IsRoot-names t name plane (IsRoot.target e) = rw e (rw (eq_refl t) refl)
IsRoot-names t name plane (IsRoot.primary roles b e) =
    rw b (rw e (rw (eq_refl t) (true_or (plane.artifact.target == t) true (inr refl))))
IsRoot-names t name plane (IsRoot.nixrescue roles role b r e) =
    rw b (rw r (rw e (rw (eq_refl t) (ground arith))))

pub insert_hosts-NamesRoot :
    (hosts : BTreeMap ReleaseHostEntry) (t : Text)
    → (contains (insert_hosts [] hosts) t ≡ true) ↔ NamesRoot hosts t
insert_hosts-NamesRoot hosts t = (
  λ h.
      let found : any (host_names t) hosts ≡ true =
        ground (arith, h, contains-insert_hosts [] hosts t) in
      let (host, m, k) = any-Memᴰ (host_names t) hosts found in
      let (plane, n, r) = any-Memᴰ (names t) host.1.planes k in
      (host, m, (plane, n, names-IsRoot t plane.0 plane.1 r)),
  λ (host, m, (plane, n, r)).
      let k = Memᴰ-any (names t) plane host.1.planes n (IsRoot-names t plane.0 plane.1 r) in
      let found = Memᴰ-any (host_names t) host hosts m k in
      ground (arith, found, contains-insert_hosts [] hosts t),
)
