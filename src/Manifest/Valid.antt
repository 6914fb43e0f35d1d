-- ===== src/Manifest/Valid.antt =====
-- `validate` finds no problem exactly with the documents of an independent description.
use nixdeploy_corbet_ch.Backend.{
  Backend, nixos, system_manager, home_manager, nix_darwin, as_str, BootRole, primary, nixrescue,
}
use nixdeploy_corbet_ch.StorePath.{looks_like_store_path}
use nixdeploy_corbet_ch.Artifact.{blank}
use nixdeploy_corbet_ch.Manifest.{
  BootArtifact, BootSpec, unmanaged, managed, PlaneEntry, identity_problems, image_empty,
  artifact_problems, rescue_problems, managed_problems, boot_problems, plane_problems,
}
use mathlib.Core.Option.{some-injective}
use nixdeploy_corbet_ch.Base.{
  push_if, ◌≡◌, refl, subst, ◌≢◌, Bool, true, false, not, Option, none, some, List, [], ◌∷◌, ◌++◌,
}
use nixdeploy_corbet_ch.Text.{Text}
use nixdeploy_corbet_ch.Text.Laws.{eq_sound, eq_iff}

-- Identities belong to home-manager planes, and to each of them.
abbrev pub IdentityFits : Backend → Option Text → Type 0
IdentityFits home_manager none = ⊥
IdentityFits home_manager (some identity) = blank identity ≡ false
IdentityFits _ none = Unit
IdentityFits _ (some identity) = ⊥

pub record IsArtifact (a : BootArtifact) : Type 0 where
  pub path : looks_like_store_path a.artifact ≡ true
  pub image : a.image ≢ some []

abbrev pub IsManaged : BootSpec → Type 0
IsManaged unmanaged = Unit
IsManaged (managed roles) =
    IsArtifact roles.primary_role
    × ((a : BootArtifact) → roles.nixrescue_role ≡ some a → IsArtifact a)

-- NixOS planes say how they boot, system planes may, and no other plane does.
abbrev pub BootFits : Option BootSpec → Backend → Type 0
BootFits none nixos = ⊥
BootFits none _ = Unit
BootFits (some spec) nixos = IsManaged spec
BootFits (some spec) system_manager = IsManaged spec
BootFits (some spec) _ = ⊥

pub record IsPlane (name : Text) (plane : PlaneEntry) : Type 0 where
  pub named : name ≡ as_str plane.backend
  pub path : looks_like_store_path plane.target ≡ true
  pub identity : IdentityFits plane.backend plane.identity
  pub boot : BootFits plane.boot plane.backend

pub append-eq_nil : {A : Type 0} (xs ys : List A) → xs ++ ys ≡ [] → (xs ≡ []) × (ys ≡ [])
append-eq_nil [] ys h = (refl, h)
append-eq_nil (x ∷ xs) ys h = cc

pub push_if-eq_nil : {P : Type 0} (b : Bool) (fault : P) → push_if b fault ≡ [] → b ≡ false
push_if-eq_nil true fault h = cc
push_if-eq_nil false fault h = refl

pub not-eq_false : (b : Bool) → not b ≡ false → b ≡ true
not-eq_false true h = refl
not-eq_false false h = cc

identity_problems-IdentityFits :
    (b : Backend) (identity : Option Text)
    → identity_problems b identity ≡ []
    → IdentityFits b identity
unfolding identity_problems
identity_problems-IdentityFits home_manager none h = cc
identity_problems-IdentityFits home_manager (some identity) h = push_if-eq_nil _ _ h
identity_problems-IdentityFits nixos none h = tt
identity_problems-IdentityFits nixos (some identity) h = cc
identity_problems-IdentityFits system_manager none h = tt
identity_problems-IdentityFits system_manager (some identity) h = cc
identity_problems-IdentityFits nix_darwin none h = tt
identity_problems-IdentityFits nix_darwin (some identity) h = cc

IdentityFits-identity_problems :
    (b : Backend) (identity : Option Text)
    → IdentityFits b identity
    → identity_problems b identity ≡ []
unfolding identity_problems
IdentityFits-identity_problems home_manager none h = absurd h
IdentityFits-identity_problems home_manager (some identity) h = rw h
IdentityFits-identity_problems nixos none h = refl
IdentityFits-identity_problems nixos (some identity) h = absurd h
IdentityFits-identity_problems system_manager none h = refl
IdentityFits-identity_problems system_manager (some identity) h = absurd h
IdentityFits-identity_problems nix_darwin none h = refl
IdentityFits-identity_problems nix_darwin (some identity) h = absurd h

image_empty-ne : (image : Option Text) → image_empty image ≡ false → image ≢ some []
image_empty-ne none h = λ e. cc
image_empty-ne (some []) h = cc
image_empty-ne (some (c ∷ s)) h = λ e. cc

ne-image_empty : (image : Option Text) → image ≢ some [] → image_empty image ≡ false
ne-image_empty none h = refl
ne-image_empty (some []) h = absurd (h refl)
ne-image_empty (some (c ∷ s)) h = refl

artifact_problems-IsArtifact :
    (role : BootRole) (a : BootArtifact) → artifact_problems role a ≡ [] → IsArtifact a
unfolding artifact_problems
artifact_problems-IsArtifact role a h =
    let (p, i) = append-eq_nil _ _ h in
    record {
      path = not-eq_false _ (push_if-eq_nil _ _ p);
      image = image_empty-ne a.image (push_if-eq_nil _ _ i);
    }

IsArtifact-artifact_problems :
    (role : BootRole) (a : BootArtifact) → IsArtifact a → artifact_problems role a ≡ []
unfolding artifact_problems
IsArtifact-artifact_problems role a v = rw (v.path, ne-image_empty a.image v.image)

managed_problems-IsManaged : (spec : BootSpec) → managed_problems spec ≡ [] → IsManaged spec
unfolding managed_problems
managed_problems-IsManaged unmanaged h = tt
managed_problems-IsManaged (managed roles) h =
    let (p, r) = append-eq_nil _ _ h in
    (artifact_problems-IsArtifact primary roles.primary_role p, rescue roles.nixrescue_role r)
  where
    rescue :
        (o : Option BootArtifact)
        → rescue_problems o ≡ []
        → (a : BootArtifact) → o ≡ some a
        → IsArtifact a
    rescue none h a e = cc
    rescue (some b) h a e =
        subst IsArtifact (some-injective b a e) (artifact_problems-IsArtifact nixrescue b h)

IsManaged-managed_problems : (spec : BootSpec) → IsManaged spec → managed_problems spec ≡ []
unfolding managed_problems
IsManaged-managed_problems unmanaged v = refl
IsManaged-managed_problems (managed roles) v =
    rw (IsArtifact-artifact_problems primary roles.primary_role v.0)
      (rescue roles.nixrescue_role v.1)
  where
    rescue :
        (o : Option BootArtifact)
        → ((a : BootArtifact) → o ≡ some a → IsArtifact a)
        → rescue_problems o ≡ []
    rescue none f = refl
    rescue (some b) f = IsArtifact-artifact_problems nixrescue b (f b refl)

boot_problems-BootFits :
    (boot : Option BootSpec) (b : Backend) → boot_problems boot b ≡ [] → BootFits boot b
unfolding boot_problems
boot_problems-BootFits none nixos h = cc
boot_problems-BootFits none system_manager h = tt
boot_problems-BootFits none home_manager h = tt
boot_problems-BootFits none nix_darwin h = tt
boot_problems-BootFits (some spec) nixos h = managed_problems-IsManaged spec h
boot_problems-BootFits (some spec) system_manager h = managed_problems-IsManaged spec h
boot_problems-BootFits (some spec) home_manager h = cc
boot_problems-BootFits (some spec) nix_darwin h = cc

BootFits-boot_problems :
    (boot : Option BootSpec) (b : Backend) → BootFits boot b → boot_problems boot b ≡ []
unfolding boot_problems
BootFits-boot_problems none nixos v = absurd v
BootFits-boot_problems none system_manager v = refl
BootFits-boot_problems none home_manager v = refl
BootFits-boot_problems none nix_darwin v = refl
BootFits-boot_problems (some spec) nixos v = IsManaged-managed_problems spec v
BootFits-boot_problems (some spec) system_manager v = IsManaged-managed_problems spec v
BootFits-boot_problems (some spec) home_manager v = absurd v
BootFits-boot_problems (some spec) nix_darwin v = absurd v

pub plane_problems-IsPlane :
    (name : Text) (plane : PlaneEntry) → plane_problems name plane ≡ [] → IsPlane name plane
unfolding plane_problems
plane_problems-IsPlane name plane h =
    let (n, h') = append-eq_nil _ _ h in
    let (t, h'') = append-eq_nil _ _ h' in
    let (i, b) = append-eq_nil _ _ h'' in
    record {
      named = eq_sound _ _ (not-eq_false _ (push_if-eq_nil _ _ n));
      path = not-eq_false _ (push_if-eq_nil _ _ t);
      identity = identity_problems-IdentityFits plane.backend plane.identity i;
      boot = boot_problems-BootFits plane.boot plane.backend b;
    }

pub IsPlane-plane_problems :
    (name : Text) (plane : PlaneEntry) → IsPlane name plane → plane_problems name plane ≡ []
unfolding plane_problems
IsPlane-plane_problems name plane v = rw (
  (eq_iff name (as_str plane.backend)).1 v.named,
  v.path,
  IdentityFits-identity_problems plane.backend plane.identity v.identity,
  BootFits-boot_problems plane.boot plane.backend v.boot,
)
