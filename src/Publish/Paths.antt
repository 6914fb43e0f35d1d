-- ===== src/Publish/Paths.antt =====
-- The paths of `publish` of src/publish.rs: the manifest, its signature and their temporary files
-- are four files.
use mathlib.Core.List.{reverse, reverse-append}
use nixdeploy_corbet_ch.Digits.{show}
use nixdeploy_corbet_ch.World.{FilePath}
use nixdeploy_corbet_ch.AtomicFile.{temp_path}
use nixdeploy_corbet_ch.Publish.{signature_path, path_of}
use nixdeploy_corbet_ch.Base.{
  Option-cases, length, length-append, ℕ, ◌≡◌, refl, sym, ap, ◌∙◌, ◌≢◌, inl, inr, [], ◌∷◌, ◌++◌,
  arith,
}
use nixdeploy_corbet_ch.Text.{Text, codes, split_once}
use nixdeploy_corbet_ch.Text.Laws.{final, final-append}

reversed_name : (name : Text) → reverse (codes "gis." ++ name) ≡ reverse name ++ codes ".sig"
reversed_name name = reverse-append (codes "gis.") name

path_of-signature_path :
    (out : Text)
    → path_of (signature_path out)
      ≡ record { dir = (path_of out).dir; name = (path_of out).name ++ codes ".sig" }
unfolding path_of split_once
path_of-signature_path out =
    rw (reverse-append out (codes ".sig")) (elim (Option-cases (split_once (reverse out) b'/')) [
      | inl e ↦ rw e refl
      | inr ((name, []), e) ↦ rw e (rw (reversed_name name) refl)
      | inr ((name, c ∷ parent), e) ↦ rw e (rw (reversed_name name) refl)
    ])

pub signature_apart : (out : Text) → path_of (signature_path out) ≢ path_of out
signature_apart out e =
    let names = ap (λ (p : FilePath). length p.name) (sym (path_of-signature_path out) ∙ e) in
    absurd (omega (arith, names, length-append (path_of out).name (codes ".sig")))

pub signature_temp_apart :
    (pid : ℕ) (out : Text) → temp_path pid (path_of (signature_path out)) ≢ path_of out
unfolding temp_path
signature_temp_apart pid out e =
    let name = (path_of out).name in
    let rest = b'.' ∷ (show pid ++ codes ".tmp") in
    let names = ap (λ (p : FilePath). length p.name) e in
    let same = ap (λ (p : FilePath). length p.name) (path_of-signature_path out) in
    absurd (
      omega (
        arith,
        names,
        same,
        length-append (path_of (signature_path out)).name rest,
        length-append name (codes ".sig"),
      ))

pub manifest_temp_apart :
    (pid : ℕ) (out : Text) → temp_path pid (path_of out) ≢ path_of (signature_path out)
unfolding temp_path
manifest_temp_apart pid out e =
    let name = (path_of out).name in
    let names = ap (λ (p : FilePath). final p.name) (e ∙ path_of-signature_path out) in
    let temp_end =
      final-append (b'.' ∷ name) b'.' (show pid ++ codes ".tmp")
      ∙ final-append (b'.' ∷ show pid) b'.' (codes "tmp") in
    let sig_end = final-append name b'.' (codes "sig") in
    absurd (omega (arith, names, temp_end, sig_end))
