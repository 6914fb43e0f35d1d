-- ===== src/Artifact.antt =====
-- Release artifacts of src/release.rs: their provenance, the compatibility check that a receiver
-- makes, and the validation of one artifact.
pub mod Compatible
use nixdeploy_corbet_ch.StorePath.{looks_like_store_path, looks_like_id, looks_like_git_revision}
use nixdeploy_corbet_ch.Version.{parse_version, version_less_than}
use nixdeploy_corbet_ch.Base.{
  eqb, if◌then◌else◌, length, is_empty, any, push_if, Result, ok, err, ◌>>=◌, ok_or, ℕ, Bool, true,
  false, not, ◌||◌, Option, none, some, List, ◌++◌,
}
use nixdeploy_corbet_ch.Text.{Text, codes, ◌==◌, is_whitespace, trim, strip_prefix}

pub record SourceProvenance : Type 0 where
  pub repository : Text
  pub revision : Text
  pub lock_digest : Text

pub record BuilderProvenance : Type 0 where
  pub id : Text
  pub nix_version : Text
  pub store_version : Text

pub record ArtifactProvenance : Type 0 where
  pub source : SourceProvenance
  pub builder : BuilderProvenance

pub record ArtifactRequirements : Type 0 where
  pub system : Text
  pub minimum_store_version : Text

pub record Artifact : Type 0 where
  pub target : Text
  pub nar_hash : Text
  pub closure_digest : Text
  pub provenance : ArtifactProvenance
  pub requirements : ArtifactRequirements

-- Each error carries its texts: required and actual.
pub data CompatibilityError : Type 0 where
  wrong_system store_too_old : Text → Text → CompatibilityError
  invalid_required_version unknown_store_version : Text → CompatibilityError

-- `ArtifactRequirements::check`
unfoldable pub check : ArtifactRequirements → Text → Text → Result (Unit {0}) CompatibilityError
check self system store_version =
    if not (self.system == system) then err (wrong_system self.system system) else do
      required ←
          ok_or (invalid_required_version self.minimum_store_version)
            (parse_version self.minimum_store_version)
      actual ← ok_or (unknown_store_version store_version) (parse_version store_version)
      (if version_less_than actual required
          then err (store_too_old self.minimum_store_version store_version)
          else ok tt)

pub data ArtifactFault : Type 0 where
  target_not_store_path nar_hash_not_sri closure_digest_malformed : ArtifactFault
  repository_empty revision_not_git lock_digest_malformed : ArtifactFault
  builder_unnamed builder_version_unknown : ArtifactFault
  system_invalid minimum_version_unknown : ArtifactFault

abbrev is_none {ℓ} : {A : Type ℓ} → Option A → Bool
is_none none = true
is_none (some a) = false

-- `looks_like_nar_hash`, over the decoder of the base64 crate.
unfoldable pub looks_like_nar_hash : (Text → Option (List ℕ)) → Text → Bool
looks_like_nar_hash decode value = elim (strip_prefix value (codes "sha256-")) [
  | none ↦ false
  | some encoded ↦ elim (decode encoded) [ none ↦ false | some bytes ↦ eqb (length bytes) 32 ]
]

unfoldable pub blank : Text → Bool
blank s = is_empty (trim s)

-- `validate_artifact`, the prefix of its messages left to the caller.
unfoldable pub validate_artifact : (Text → Option (List ℕ)) → Artifact → List ArtifactFault
validate_artifact decode a =
    push_if (not (looks_like_store_path a.target)) target_not_store_path
    ++ (push_if (not (looks_like_nar_hash decode a.nar_hash)) nar_hash_not_sri
        ++ (push_if (not (looks_like_id a.closure_digest)) closure_digest_malformed
            ++ (push_if (blank a.provenance.source.repository) repository_empty
                ++ (push_if (not (looks_like_git_revision a.provenance.source.revision))
                      revision_not_git
                    ++ (push_if (not (looks_like_id a.provenance.source.lock_digest))
                          lock_digest_malformed
                        ++ (push_if
                              (blank a.provenance.builder.id
                                || blank a.provenance.builder.nix_version)
                              builder_unnamed
                            ++ (push_if (is_none (parse_version a.provenance.builder.store_version))
                                  builder_version_unknown
                                ++ (push_if
                                      (blank a.requirements.system
                                        || any is_whitespace a.requirements.system)
                                      system_invalid
                                    ++ push_if
                                        (is_none
                                          (parse_version a.requirements.minimum_store_version))
                                        minimum_version_unknown))))))))
