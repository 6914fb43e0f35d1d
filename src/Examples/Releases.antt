-- ===== src/Examples/Releases.antt =====
-- A release that is signed and verified.
use nixdeploy_corbet_ch.Examples.{toy_crypto, toy_crypto-CryptoLaws, new_system}
use nixdeploy_corbet_ch.Backend.{nixos, as_str}
use nixdeploy_corbet_ch.Artifact.{Artifact, looks_like_nar_hash, blank, validate_artifact}
use nixdeploy_corbet_ch.StorePath.{
  hash_and_name, base_name_ok, looks_like_store_path, is_timestamp_bytes, looks_like_timestamp,
  looks_like_id, looks_like_git_revision,
}
use nixdeploy_corbet_ch.Version.{
  decimal, parse_u64, parse_component, parse_components, parse_version,
}
use nixdeploy_corbet_ch.Trust.{sign_detached}
use nixdeploy_corbet_ch.Release.{
  ReleaseBootSpec, DeploymentSet, ReleaseDocument, SignedEnvelope, new_set,
}
use nixdeploy_corbet_ch.Release.Sets.{
  identity_blank, identity_faults, managed_faults, boot_faults, plane_faults, planes_faults,
  hosts_faults, validate_set, digest_id, set_id,
}
use nixdeploy_corbet_ch.Release.Envelope.{
  Forms, document_problems, seal, sign_release, verify_release,
}
use nixdeploy_corbet_ch.Release.Signed.{release_of, verify_release-sign_release}
use nixdeploy_corbet_ch.Base.{ok, ◌≡◌, refl, sym, ap, none, some, [], ◌∷◌, ◌++◌}
use nixdeploy_corbet_ch.Text.{
  Text, codes, ◌==◌, utf8, as_bytes, is_whitespace, trim_start, trim, strip_prefix, split_once,
  split, take_while,
}

abbrev pub digest : Text
digest = codes "sha256:0123456789abcdef0123456789abcdef0123456789abcdef0123456789abcdef"

abbrev complete : Artifact
complete = record {
  target = new_system;
  nar_hash = codes "sha256-" ++ toy_crypto.encode64 (toy_crypto.key_bytes 3);
  closure_digest = digest;
  provenance = record {
    source = record {
      repository = codes "r";
      revision = codes "0123456789abcdef0123456789abcdef01234567";
      lock_digest = digest;
    };
    builder = record { id = codes "b"; nix_version = codes "2.24"; store_version = codes "2.24.1" };
  };
  requirements = record { system = codes "x86_64-linux"; minimum_store_version = codes "2.18" };
}

abbrev pub set : DeploymentSet
set = new_set (
    (
      codes "web",
      record {
        planes =
            (
              codes "nixos",
              record {
                backend = nixos;
                identity = none;
                artifact = complete;
                boot = some ReleaseBootSpec.unmanaged;
              },
            )
            ∷ [];
      },
    )
    ∷ [])

abbrev pub published_at : Text
published_at = codes "2026-01-02T03:04:05Z"

-- The ID is the digest of the encoded set, here of nothing.
abbrev pub release : ReleaseDocument
release = record {
  deployment_set_id = codes "sha256:";
  parent_deployment_set_id = some digest;
  published_at = published_at;
  deployment_set = set;
}

abbrev pub envelope : SignedEnvelope
envelope = record {
  envelope_version = 1;
  payload = toy_crypto.encode64 (1 ∷ 2 ∷ []);
  signature = codes "k:" ++ toy_crypto.encode64 (toy_crypto.sign 7 (1 ∷ 2 ∷ []));
}

abbrev pub forms : Forms
forms = record {
  sets = record { encode = λ a. []; decode = λ b. none };
  documents = record { encode = λ a. 1 ∷ 2 ∷ []; decode = λ b. some release };
  envelopes = record { encode = λ a. []; decode = λ b. some envelope };
  records = record { encode = λ a. []; decode = λ b. none };
}

release_signed :
    sign_release toy_crypto forms set (some digest) published_at (codes "k") 7 ≡ ok envelope
unfolding sign_release document_problems set_id digest_id validate_set hosts_faults planes_faults
    plane_faults identity_faults identity_blank boot_faults managed_faults validate_artifact
    looks_like_nar_hash looks_like_id looks_like_git_revision looks_like_store_path base_name_ok
    hash_and_name looks_like_timestamp is_timestamp_bytes blank parse_version parse_components
    parse_component parse_u64 decimal as_bytes utf8 strip_prefix split_once split take_while trim
    trim_start is_whitespace ◌==◌ as_str seal sign_detached
release_signed = refl

release_known : release_of toy_crypto forms set (some digest) published_at ≡ release
unfolding set_id digest_id
release_known = refl

verify_release-sign_release_example :
    verify_release toy_crypto forms [] (toy_crypto.encode64 (toy_crypto.key_bytes 7))
    ≡ ok (release_of toy_crypto forms set (some digest) published_at)
verify_release-sign_release_example =
    verify_release-sign_release toy_crypto toy_crypto-CryptoLaws forms set (some digest)
      published_at (codes "k") 7 envelope refl release_signed (ap (λ r. some r) (sym release_known))
      refl
