-- ===== src/Examples.antt =====
-- Data for the examples: a toy cryptography, documents, and a machine.
pub mod Documents
pub mod Runs
pub mod Sizes
pub mod Releases
pub mod Disk
pub mod Promotions
pub mod Publications
pub mod Requests
use nixdeploy_corbet_ch.Backend.{nixos}
use nixdeploy_corbet_ch.Trust.{Crypto, CryptoLaws}
use nixdeploy_corbet_ch.Manifest.{BootSpec, managed, PlaneEntry, ManifestDoc}
use nixdeploy_corbet_ch.Release.{Codec, ReleasePlaneEntry, ReleaseHostEntry}
use nixdeploy_corbet_ch.Select.{Wire}
use nixdeploy_corbet_ch.Artifact.{Artifact}
use nixdeploy_corbet_ch.Base.{
  eqb, length, all, length-append, take, ℕ, zero, suc, ◌+◌, ◌-◌, ◌≤◌, ◌≡◌, refl, ap, true, false,
  not, Option, none, some, List, [], ◌∷◌, ◌++◌, arith,
}
use nixdeploy_corbet_ch.Text.{Text, codes, ◌==◌}
use nixdeploy_corbet_ch.Text.Laws.{eq_refl}

abbrev zeros : ℕ → List ℕ
zeros zero = []
zeros (suc n) = 0 ∷ zeros n

abbrev shift : List ℕ → Text
shift [] = []
shift (x ∷ xs) = (x + 59) ∷ shift xs

abbrev unshift : Text → List ℕ
unshift [] = []
unshift (x ∷ xs) = (x - 59) ∷ unshift xs

abbrev first : List ℕ → Option ℕ
first [] = none
first (x ∷ xs) = some x

-- A signature is the key and the first byte of the message.
abbrev pub toy_crypto : Crypto
toy_crypto = record {
  SigningKey = ℕ;
  VerifyingKey = ℕ;
  encode64 = shift;
  decode64 = λ t. some (unshift t);
  key_from_seed = λ seed. 7;
  verifying_key = λ k. k;
  key_bytes = λ k. k ∷ zeros 31;
  read_key = first;
  sign = λ k m. k ∷ take 63 (m ++ zeros 63);
  verifies = λ k m s. s == (k ∷ take 63 (m ++ zeros 63));
  sha256 = λ m. m;
}

unshift-shift : (xs : List ℕ) → unshift (shift xs) ≡ xs
unshift-shift [] = refl
unshift-shift (x ∷ xs) = rw (unshift-shift xs) (ground arith)

shift_alphabet : (xs : List ℕ) → all (λ x. not (eqb x b':')) (shift xs) ≡ true
shift_alphabet [] = refl
shift_alphabet (x ∷ xs) = ground (arith, shift_alphabet xs)

length-zeros : (n : ℕ) → length (zeros n) ≡ n
length-zeros zero = refl
length-zeros (suc n) = omega (arith, length-zeros n)

length-take : (n : ℕ) (xs : List ℕ) → n ≤ length xs → length (take n xs) ≡ n
length-take zero xs h = refl
length-take (suc n) [] h = absurd (omega arith)
length-take (suc n) (x ∷ xs) h = omega (arith, length-take n xs (omega arith))

pub toy_crypto-CryptoLaws : CryptoLaws toy_crypto
toy_crypto-CryptoLaws = record {
  decode-encode = λ b. ap (λ x. some x) (unshift-shift b);
  encode_alphabet = shift_alphabet;
  sign_length = λ k m.
      ap (λ n. suc n) (length-take 63 (m ++ zeros 63) (omega (arith, length-append m (zeros 63))));
  verifies_sign = λ k m. eq_refl _;
  key_length = λ k. refl;
  read_key-bytes = λ k. refl;
}

abbrev pub old_system : Text
old_system = codes "/nix/store/0123456789abcdfghijklmnpqrsvwxyz-old"

abbrev pub new_system : Text
new_system = codes "/nix/store/0123456789abcdfghijklmnpqrsvwxyz-new"

abbrev pub toy_plane : PlaneEntry
toy_plane = record {
  backend = nixos;
  identity = none;
  target = new_system;
  boot = some (
      BootSpec.managed (record {
        primary_role = record { artifact = new_system; image = some (codes "image") };
        nixrescue_role = none;
      }));
}

abbrev pub toy_document : ManifestDoc
toy_document = record {
  version = 3;
  revision = codes "r1";
  built_at = codes "2026-01-02T03:04:05Z";
  hosts = (codes "web", record { planes = (codes "nixos", toy_plane) ∷ [] }) ∷ [];
}

abbrev pub toy_artifact : Text → Artifact
toy_artifact target = record {
  target = target;
  nar_hash = codes "sha256-";
  closure_digest = [];
  provenance = record {
    source = record { repository = codes "r"; revision = []; lock_digest = [] };
    builder = record { id = []; nix_version = []; store_version = [] };
  };
  requirements = record { system = codes "x86_64-linux"; minimum_store_version = codes "2.18" };
}

abbrev pub toy_entry : Text → ReleasePlaneEntry
toy_entry target = record {
  backend = nixos;
  identity = none;
  artifact = toy_artifact target;
  boot = none;
}

abbrev pub host_with : Text → Text → Text × ReleaseHostEntry
host_with host target = (host, record { planes = (codes "nixos", toy_entry target) ∷ [] })

-- The codecs of the wire forms that these examples do not read.
abbrev unread {ℓ} : {A : Type ℓ} → Codec A
unread = record { encode = λ a. []; decode = λ b. none }

abbrev pub toy_wire : Wire
toy_wire = record {
  manifests = record { encode = λ d. []; decode = λ b. some toy_document };
  releases = record { sets = unread; documents = unread; envelopes = unread; records = unread };
  has_envelope_version = λ t. false;
}

abbrev pub toy_body : Text
toy_body = codes "{}"

abbrev pub toy_key : Text
toy_key = codes "k:" ++ toy_crypto.encode64 (toy_crypto.key_bytes 7)

abbrev pub toy_signature : Text
toy_signature = codes "k:" ++ toy_crypto.encode64 (toy_crypto.sign 7 toy_body)
