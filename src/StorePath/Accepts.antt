-- ===== src/StorePath/Accepts.antt =====
-- What an accepted store path looks like, and that the narinfo source can name its metadata.
use nixdeploy_corbet_ch.Base.{
  eqb, Option-cases, length, all, all_mono, is_empty-false, is_empty_ne, ℕ, ◌≡◌, ap, ◌∙◌, ◌≢◌, ◌↔◌,
  inl, inr, true, not, some, [], ◌∷◌, ◌++◌, arith,
}
use nixdeploy_corbet_ch.Text.{Text, codes, as_bytes, strip_prefix, split_once}
use nixdeploy_corbet_ch.StorePath.{
  is_hash_char, is_name_char, hash_and_name, base_name_ok, looks_like_store_path, store_hash,
}
use nixdeploy_corbet_ch.Text.Laws.{
  split_once-append, strip_prefix-append, strip_prefix-append_self, split_once-append_self,
}

pub record IsStorePath (value hash name : Text) : Type 0 where
  pub parts : value ≡ codes "/nix/store/" ++ (hash ++ b'-' ∷ name)
  pub hash_length : length (as_bytes hash) ≡ 32
  pub hash_chars : all is_hash_char hash ≡ true
  pub name_nonempty : name ≢ []
  pub name_chars : all is_name_char name ≡ true

hash_and_name-parts :
    (value hash name : Text)
    → value ≡ codes "/nix/store/" ++ (hash ++ b'-' ∷ name)
    → hash_and_name hash name ≡ true
    → IsStorePath value hash name
unfolding hash_and_name
hash_and_name-parts value hash name e h = record {
  parts = e;
  hash_length = ground arith;
  hash_chars = ground arith;
  name_nonempty = is_empty-false name (ground arith);
  name_chars = ground arith;
}

-- An accepted target is "/nix/store/", a 32-byte base-32 hash, a dash and a non-empty name.
pub looks_like_store_path-IsStorePath :
    (value : Text)
    → looks_like_store_path value ≡ true
    → (hash : Text) × (name : Text) × IsStorePath value hash name
unfolding looks_like_store_path
looks_like_store_path-IsStorePath value h =
    elim (Option-cases (strip_prefix value (codes "/nix/store/"))) [
      | inl e ↦ cc (rw (e, looks_like_store_path) at h)
      | inr (rest, e) ↦
          let h' : base_name_ok (split_once rest b'-') ≡ true =
            rw (e, looks_like_store_path) at h in
          elim (Option-cases (split_once rest b'-')) [
            | inl f ↦ cc (rw f at h')
            | inr ((hash, name), f) ↦ (
              hash,
              name,
              hash_and_name-parts value hash name
                  (strip_prefix-append value (codes "/nix/store/") rest e
                    ∙ ap (λ (t : Text). codes "/nix/store/" ++ t)
                        (split_once-append rest b'-' hash name f))
                  (unfold base_name_ok in rw f at h'),
            )
          ]
    ]

dash_free : (c : ℕ) → is_hash_char c ≡ true → not (eqb c b'-') ≡ true
dash_free c h = ground arith

base_parts :
    {value hash name : Text}
    → IsStorePath value hash name
    → split_once (hash ++ b'-' ∷ name) b'-' ≡ some (hash, name)
base_parts {hash = hash} {name = name} v =
    split_once-append_self hash b'-' name
      (all_mono is_hash_char (λ c. not (eqb c b'-')) hash dash_free v.hash_chars)

-- The description is exact: every text of this form is accepted.
pub IsStorePath-looks_like_store_path :
    (value hash name : Text) → IsStorePath value hash name → looks_like_store_path value ≡ true
unfolding looks_like_store_path
IsStorePath-looks_like_store_path value hash name v =
    let e : strip_prefix value (codes "/nix/store/") ≡ some (hash ++ b'-' ∷ name) =
      rw v.parts (strip_prefix-append_self (codes "/nix/store/") (hash ++ b'-' ∷ name)) in
    rw (e, looks_like_store_path)
      (rw (base_parts v) (
        ground
          (arith, v.hash_length, v.hash_chars, v.name_chars, is_empty_ne name v.name_nonempty)))

-- A target is accepted exactly if it is "/nix/store/", a hash of 32 bytes in Nix's base-32 alphabet, a
-- dash, and a non-empty name in the alphabet of store names.
pub looks_like_store_path_iff :
    (value : Text)
    → (looks_like_store_path value ≡ true)
      ↔ ((hash : Text) × (name : Text) × IsStorePath value hash name)
looks_like_store_path_iff value = (
  looks_like_store_path-IsStorePath value,
  λ h. let (hash, name, v) = h in IsStorePath-looks_like_store_path value hash name v,
)

IsStorePath-store_hash :
    (value hash name : Text)
    → IsStorePath value hash name
    → store_hash value (codes "/nix/store") ≡ some hash
unfolding store_hash
IsStorePath-store_hash value hash name v =
    let e : strip_prefix value (codes "/nix/store") ≡ some (b'/' ∷ hash ++ b'-' ∷ name) =
      rw v.parts (strip_prefix-append_self (codes "/nix/store") (b'/' ∷ hash ++ b'-' ∷ name)) in
    rw (e, store_hash) (unfold strip_prefix in rw (base_parts v) (ground (arith, v.hash_length)))

-- Every target that validation accepts has a narinfo name: a hash of 32 bytes in Nix's base-32
-- alphabet.
pub looks_like_store_path-store_hash :
    (value : Text)
    → looks_like_store_path value ≡ true
    → (hash : Text) × (store_hash value (codes "/nix/store") ≡ some hash)
      × (length (as_bytes hash) ≡ 32)
      × (all is_hash_char hash ≡ true)
looks_like_store_path-store_hash value h =
    let (hash, name, v) = looks_like_store_path-IsStorePath value h in
    (hash, IsStorePath-store_hash value hash name v, v.hash_length, v.hash_chars)
