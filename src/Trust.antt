-- ===== src/Trust.antt =====
-- Keys and detached signatures of src/manifest.rs. The crates base64, ed25519-dalek and sha2 are
-- the fields of `Crypto`; what the code relies on of them is `CryptoLaws`.
pub mod Signatures
use nixdeploy_corbet_ch.Base.{
  eqb, if◌then◌else◌, length, is_empty, all, take, drop, Result, ok, err, ◌>>=◌, ok_or, ℕ, ◌≡◌,
  Bool, true, not, Option, none, some, List, [], ◌∷◌, ◌++◌,
}
use nixdeploy_corbet_ch.Text.{Text, ◌==◌, trim, split_once}

pub record Crypto : Type 1 where
  pub SigningKey : Type 0
  pub VerifyingKey : Type 0
  pub encode64 : List ℕ → Text
  pub decode64 : Text → Option (List ℕ)
  pub key_from_seed : List ℕ → SigningKey
  pub verifying_key : SigningKey → VerifyingKey
  pub key_bytes : VerifyingKey → List ℕ
  pub read_key : List ℕ → Option VerifyingKey
  pub sign : SigningKey → List ℕ → List ℕ
  pub verifies : VerifyingKey → List ℕ → List ℕ → Bool
  -- The digest in lower-case hexadecimal.
  pub sha256 : List ℕ → Text

pub record CryptoLaws (c : Crypto) : Type 0 where
  pub decode-encode : (b : List ℕ) → c.decode64 (c.encode64 b) ≡ some b
  pub encode_alphabet : (b : List ℕ) → all (λ x. not (eqb x b':')) (c.encode64 b) ≡ true
  pub sign_length : (k : c.SigningKey) (m : List ℕ) → length (c.sign k m) ≡ 64
  pub verifies_sign :
      (k : c.SigningKey) (m : List ℕ) → c.verifies (c.verifying_key k) m (c.sign k m) ≡ true
  pub key_length : (k : c.VerifyingKey) → length (c.key_bytes k) ≡ 32
  pub read_key-bytes : (k : c.VerifyingKey) → c.read_key (c.key_bytes k) ≡ some k

pub data SignatureError : Type 0 where
  public_key_not_base64 public_key_invalid : SignatureError
  signature_not_base64 does_not_verify : SignatureError
  public_key_length signature_length : ℕ → SignatureError

pub data KeyError : Type 0 where
  key_not_base64 halves_disagree : KeyError
  key_length_wrong : ℕ → KeyError

-- `<name>:<base64>`, or the bare base64 text: what stands after the first colon, if there is one.
unfoldable pub encoded_part : Text → Text
encoded_part text = elim (split_once text b':') [ none ↦ text | some (name, rest) ↦ rest ]

module _ (c : Crypto) where
  open c use {
    SigningKey, VerifyingKey, encode64, decode64, key_from_seed, verifying_key, key_bytes, read_key,
    sign, verifies,
  }

  unfoldable pub parse_public_key : Text → Result VerifyingKey SignatureError
  parse_public_key text = do
    bytes ← ok_or public_key_not_base64 (decode64 (encoded_part text))
    (if eqb (length bytes) 32
        then ok_or public_key_invalid (read_key bytes)
        else err (public_key_length (length bytes)))

  unfoldable pub verify : VerifyingKey → List ℕ → Text → Result (Unit {0}) SignatureError
  verify key message signature_text = do
    bytes ← ok_or signature_not_base64 (decode64 (encoded_part signature_text))
    (if eqb (length bytes) 64
        then (if verifies key message bytes then ok tt else err does_not_verify)
        else err (signature_length (length bytes)))

  unfoldable pub verify_with_signing_key :
      SigningKey → List ℕ → Text → Result (Unit {0}) SignatureError
  unfolding verify
  verify_with_signing_key key body signature_text = verify (verifying_key key) body signature_text

  unfoldable pub name_and_encoded : Text → Text × Text
  name_and_encoded text = elim (split_once text b':') [
    | none ↦ ([], text)
    | some (name, rest) ↦ (name, rest)
  ]

  -- A seed alone, or a seed with the public half that it must have.
  unfoldable pub seed_of : List ℕ → Result (List ℕ) KeyError
  seed_of bytes =
      if eqb (length bytes) 32
      then ok (take 32 bytes)
      else if eqb (length bytes) 64
      then (if key_bytes (verifying_key (key_from_seed (take 32 bytes))) == drop 32 bytes
          then ok (take 32 bytes)
          else err halves_disagree)
      else err (key_length_wrong (length bytes))

  unfoldable pub parse_signing_key : Text → Result (Text × SigningKey) KeyError
  unfolding seed_of name_and_encoded
  parse_signing_key text =
      let (name, encoded) = name_and_encoded (trim text) in
      do
        bytes ← ok_or key_not_base64 (decode64 encoded)
        seed ← seed_of bytes
        ok (name, key_from_seed seed)

  unfoldable pub sign_detached : Text → SigningKey → List ℕ → Text
  sign_detached name key message =
      if is_empty name
      then encode64 (sign key message)
      else name ++ b':' ∷ encode64 (sign key message)
