-- ===== src/Trust/Signatures.antt =====
-- Signing and verifying fit together, whatever the key is called.
use nixdeploy_corbet_ch.Trust.{Crypto, CryptoLaws, encoded_part, verify, sign_detached}
use nixdeploy_corbet_ch.Base.{
  eqb, Option-cases, length, all, ok, ℕ, ◌≡◌, refl, inl, inr, true, not, none, some, List, [], ◌∷◌,
  arith,
}
use nixdeploy_corbet_ch.Text.{Text, split_once}
use nixdeploy_corbet_ch.Text.Laws.{split_once-append_self}

-- A text with no separator is not split.
pub split_once-free :
    (a : Text) (sep : ℕ) → all (λ c. not (eqb c sep)) a ≡ true → split_once a sep ≡ none
unfolding split_once
split_once-free [] sep h = refl
split_once-free (c ∷ a) sep h = ground (arith, split_once-free a sep)

module _ (c : Crypto) (laws : CryptoLaws c) where
  encoded_part-sign_detached :
      (name : Text) (key : c.SigningKey) (message : List ℕ)
      → all (λ x. not (eqb x b':')) name ≡ true
      → encoded_part (sign_detached c name key message) ≡ c.encode64 (c.sign key message)
  unfolding sign_detached encoded_part
  encoded_part-sign_detached [] key message h =
      rw (split_once-free _ b':' (laws.encode_alphabet (c.sign key message)), encoded_part)
  encoded_part-sign_detached (x ∷ name) key message h =
      rw (split_once-append_self (x ∷ name) b':' (c.encode64 (c.sign key message)) h, encoded_part)

  -- A detached signature verifies over the bytes that were signed, under the public half of the key, if
  -- the key's name has no colon and the cryptography satisfies its laws.
  pub verify-sign_detached :
      (name : Text) (key : c.SigningKey) (message : List ℕ)
      → all (λ x. not (eqb x b':')) name ≡ true
      → verify c (c.verifying_key key) message (sign_detached c name key message) ≡ ok tt
  unfolding verify
  verify-sign_detached name key message h = rw (encoded_part-sign_detached name key message h) (
      rw (laws.decode-encode (c.sign key message))
        (ground (arith, laws.sign_length key message, laws.verifies_sign key message)))

  -- A signature text that is accepted decodes to 64 bytes that the key verifies over the message.
  pub verify-verifies :
      (key : c.VerifyingKey) (message : List ℕ) (signature_text : Text)
      → verify c key message signature_text ≡ ok tt
      → (signature : List ℕ) × (c.decode64 (encoded_part signature_text) ≡ some signature)
        × (length signature ≡ 64)
        × (c.verifies key message signature ≡ true)
  unfolding verify
  verify-verifies key message signature_text h =
      elim (Option-cases (c.decode64 (encoded_part signature_text))) [
        | inl e ↦ ground (arith, e)
        | inr (bytes, e) ↦ (bytes, e, ground (arith, e), ground (arith, e))
      ]
