-- ===== src/Select/Trusted.antt =====
-- Targets come from signed and valid documents only.
use nixdeploy_corbet_ch.Trust.{Crypto, parse_public_key, verify}
use nixdeploy_corbet_ch.Manifest.{
  supported_schema_version, PlaneEntry, HostEntry, ManifestDoc, Problem,
}
use nixdeploy_corbet_ch.Manifest.Valid.{IsPlane}
use nixdeploy_corbet_ch.Manifest.Documents.{IsPlaneAt, IsHostAt, IsManifest, validate-IsManifest}
use nixdeploy_corbet_ch.Select.{
  Target, target_of_plane, Wire, check_version, no_problems, verify_and_select,
}
use nixdeploy_corbet_ch.Base.{
  Result, ok, err, ◌>>=◌, map_err, ok_or, ◌≡◌, refl, Option, none, some, List, [], ◌∷◌, arith,
}
use nixdeploy_corbet_ch.Text.{Text, as_bytes}
use nixdeploy_corbet_ch.Map.{get}
use nixdeploy_corbet_ch.Map.Laws.{All-get}

-- What stands behind a selected target: a key, a document that the key verifies, and its entry.
pub record IsBacked (c : Crypto) (wire : Wire)
    (body signature_text public_key hostname plane : Text) (t : Target) : Type 0 where
  pub key : c.VerifyingKey
  pub key_read : parse_public_key c public_key ≡ ok key
  pub verified : verify c key (as_bytes body) signature_text ≡ ok tt
  pub doc : ManifestDoc
  pub doc_read : wire.manifests.decode (as_bytes body) ≡ some doc
  pub version : doc.version ≡ supported_schema_version
  pub valid : IsManifest doc
  pub host : HostEntry
  pub host_found : get doc.hosts hostname ≡ some host
  pub entry : PlaneEntry
  pub entry_found : get host.planes plane ≡ some entry
  pub entry_valid : IsPlane plane entry
  pub target : t ≡ target_of_plane plane entry

map_err-eq_ok :
    {A E F : Type 0} (f : E → F) (r : Result A E) {a : A} → map_err f r ≡ ok a → r ≡ ok a
map_err-eq_ok f (ok a) h = cc
map_err-eq_ok f (err e) h = cc

ok_or-eq_ok : {A E : Type 0} (e : E) (o : Option A) {a : A} → ok_or e o ≡ ok a → o ≡ some a
ok_or-eq_ok e none h = cc
ok_or-eq_ok e (some a) h = cc

no_problems-eq_ok : (ps : List Problem) (u : Unit {0}) → no_problems ps ≡ ok u → ps ≡ []
unfolding no_problems
no_problems-eq_ok [] u h = refl
no_problems-eq_ok (p ∷ ps) u h = cc

version_read :
    (doc : ManifestDoc) (u : Unit {0})
    → check_version doc ≡ ok u
    → doc.version ≡ supported_schema_version
unfolding check_version
version_read doc u h = ground arith

ok_eq : {A E : Type 0} {a b : A} → ◌≡◌ {A = Result A E} (ok a) (ok b) → b ≡ a
ok_eq h = cc

>>=-eq_ok :
    {A B E : Type 0} (m : Result A E) (f : A → Result B E) {b : B}
    → (m >>= f) ≡ ok b
    → (a : A) × (m ≡ ok a) × (f a ≡ ok b)
>>=-eq_ok (ok a) f h = (a, refl, h)
>>=-eq_ok (err e) f h = cc

module _ (c : Crypto) (wire : Wire) (body signature_text public_key hostname plane : Text) where
  -- A target that is selected comes from a manifest whose exact bytes the given key verifies, that has
  -- the supported schema version and is valid, and it is the entry of the given host and plane in it.
  pub verify_and_select-IsBacked :
      (t : Target)
      → verify_and_select c wire body signature_text public_key hostname plane ≡ ok t
      → IsBacked c wire body signature_text public_key hostname plane t
  unfolding verify_and_select
  verify_and_select-IsBacked t h =
      let (key, k, h1) = >>=-eq_ok _ _ h in
      let (verified, v, h2) = >>=-eq_ok _ _ h1 in
      let (doc, d, h3) = >>=-eq_ok _ _ h2 in
      let (version, n, h4) = >>=-eq_ok _ _ h3 in
      let (checked, p, h5) = >>=-eq_ok _ _ h4 in
      let (host, i, h6) = >>=-eq_ok _ _ h5 in
      let (entry, e, h7) = >>=-eq_ok _ _ h6 in
      let valid : IsManifest doc = validate-IsManifest doc (no_problems-eq_ok _ checked p) in
      let host_found : get doc.hosts hostname ≡ some host = ok_or-eq_ok _ _ i in
      let entry_found : get host.planes plane ≡ some entry = ok_or-eq_ok _ _ e in
      record {
        key = key;
        key_read = map_err-eq_ok _ _ k;
        verified = map_err-eq_ok _ _ v;
        doc = doc;
        doc_read = ok_or-eq_ok _ _ d;
        version = version_read doc version n;
        valid = valid;
        host = host;
        host_found = host_found;
        entry = entry;
        entry_found = entry_found;
        entry_valid =
            All-get IsPlaneAt host.planes plane entry
              (All-get IsHostAt doc.hosts hostname host valid.hosts host_found).planes entry_found;
        target = ok_eq h7;
      }
