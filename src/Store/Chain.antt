-- ===== src/Store/Chain.antt =====
-- What `latest_record_with_key` of src/release.rs answers: a record that stands under its own name,
-- of the generation that counts the records.
use nixdeploy_corbet_ch.World.{FilePath}
use nixdeploy_corbet_ch.Release.{SignedEnvelope, PromotionRecord}
use nixdeploy_corbet_ch.Release.Envelope.{parse_envelope, open_with_signing_key}
use nixdeploy_corbet_ch.Store.{release_fault, successor, same_path, ReleaseStore, record_path}
use nixdeploy_corbet_ch.Store.Records.{require, check_chain, accept_record, check_record}
use nixdeploy_corbet_ch.Store.Entry.{IsOpened}
use nixdeploy_corbet_ch.Base.{
  Result, ok, err, map_err, bind_ok, ℕ, ◌+◌, ◌%◌, ◌≡◌, refl, ap, ◌∙◌, Bool, true, false, Option,
  none, some, List, arith,
}
use nixdeploy_corbet_ch.Text.Laws.{eq_iff}
use nixdeploy_corbet_ch.Text.{u64_mod}

pub require_ok {ℓ} : {E : Type ℓ} (b : Bool) (e : E) → require b e ≡ ok tt → b ≡ true
require_ok true e h = refl
require_ok false e h = cc

pub same_path-eq : (p q : FilePath) → same_path p q ≡ true → p ≡ q
same_path-eq p q h = ground (arith, eq_iff p.dir q.dir, eq_iff p.name q.name)

abbrev pub generation_of : Option PromotionRecord → ℕ
generation_of none = 0
generation_of (some entry) = entry.generation

map_err-ok {ℓ κ μ} :
    {A : Type ℓ} {D : Type κ} {E : Type μ} (f : D → E) (r : Result A D) (a : A)
    → map_err f r ≡ ok a
    → r ≡ ok a
map_err-ok f (ok b) a h = cc
map_err-ok f (err d) a h = absurd cc

module _ (store : ReleaseStore) where
  open store use {os, crypto, forms}

  accept_record-ok :
      (path : FilePath) (latest : Option PromotionRecord) (found entry : PromotionRecord)
      → accept_record store path latest found ≡ ok entry
      → (found ≡ entry)
        × (path ≡ record_path store entry.generation entry.deployment_set_id)
        × (check_chain latest entry ≡ ok tt)
  unfolding accept_record
  accept_record-ok path latest found entry h =
      let named = record_path store found.generation found.deployment_set_id in
      ground (arith, same_path-eq path named)

  -- A record that passes the check is what the bytes read as, stands under its name and continues the
  -- chain.
  pub check_record-ok :
      (path : FilePath) (latest : Option PromotionRecord) (bytes : List ℕ) (key : crypto.SigningKey)
      (entry : PromotionRecord)
      → check_record store path latest bytes key ≡ ok entry
      → (path ≡ record_path store entry.generation entry.deployment_set_id)
        × (check_chain latest entry ≡ ok tt)
        × IsOpened store key entry bytes
  unfolding check_record
  check_record-ok path latest bytes key entry h =
      let opened = λ (envelope : SignedEnvelope).
        map_err release_fault (open_with_signing_key crypto forms forms.records envelope key) in
      let (envelope, e, h1) =
        bind_ok (map_err release_fault (parse_envelope crypto forms bytes)) _ entry h in
      let (found, f, h2) = bind_ok (opened envelope) _ entry h1 in
      let (same, named, chained) = accept_record-ok path latest found entry h2 in
      (
        named,
        chained,
        (
          envelope,
          map_err-ok release_fault (parse_envelope crypto forms bytes) envelope e,
          map_err-ok release_fault (open_with_signing_key crypto forms forms.records envelope key)
                found f
              ∙ ap (λ r. ok r) same,
        ),
      )

  pub check_chain-generation :
      (latest : Option PromotionRecord) (entry : PromotionRecord)
      → check_chain latest entry ≡ ok tt
      → entry.generation ≡ (generation_of latest + 1) % u64_mod
  unfolding check_chain successor
  check_chain-generation none entry h = ground arith
  check_chain-generation (some previous) entry h = ground arith
