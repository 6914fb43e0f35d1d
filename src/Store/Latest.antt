-- ===== src/Store/Latest.antt =====
-- The reading of the records, `latest_record_with_key` of src/release.rs, as a computation.
use nixdeploy_corbet_ch.World.{World, or_exit}
use nixdeploy_corbet_ch.World.Triple.{
  Ends-value, Triple, Triple-pure, Triple-or_exit, Triple-bind, Triple-weaken, Triple-given,
}
use nixdeploy_corbet_ch.World.Files.{FileLaws}
use nixdeploy_corbet_ch.Release.{PromotionRecord}
use nixdeploy_corbet_ch.Store.{file, trust, ReleaseStore, promotions_dir, record_path}
use nixdeploy_corbet_ch.Store.Entry.{IsOpened}
use nixdeploy_corbet_ch.Store.Records.{check_record}
use nixdeploy_corbet_ch.Store.Journal.{
  sort_names, json_names, journal_path, read_records, latest_record_with_key,
}
use nixdeploy_corbet_ch.Store.Kept.{record_path-IsJson, record_path_apart, Same-IsQuiet}
use nixdeploy_corbet_ch.Store.Quiet.{
  IsStable, Holds, Holds-IsStable, both-IsStable, Triple-quiet, read-Triple,
}
use nixdeploy_corbet_ch.Store.Chain.{generation_of, check_record-ok, check_chain-generation}
use nixdeploy_corbet_ch.Base.{
  length, ok, ℕ, ◌+◌, ◌%◌, ◌≡◌, refl, subst, Option, none, some, List, [], ◌∷◌, arith,
}
use nixdeploy_corbet_ch.Text.{Text, u64_mod}

counted : (a b n : ℕ) → b ≡ n % u64_mod → a ≡ (b + 1) % u64_mod → a ≡ (n + 1) % u64_mod
counted a b n h e = omega (arith, h, e)

module _ (store : ReleaseStore) (laws : FileLaws store.os) where
  open laws use {files}
  open store use {os, crypto, forms}

  -- The record stands under its name, in a file that reads as it.
  abbrev pub Recorded : crypto.SigningKey → Option PromotionRecord → os.Machine → Type 0
  Recorded key none s = Unit
  Recorded key (some entry) s =
      (bytes : List ℕ) × Holds store laws
        (record_path store entry.generation entry.deployment_set_id) bytes s
      × IsOpened store key entry bytes

  pub Recorded-IsStable :
      (key : crypto.SigningKey) (o : Option PromotionRecord) → IsStable store laws (Recorded key o)
  Recorded-IsStable key none s t q p = tt
  Recorded-IsStable key (some entry) s t q p = (
    p.0,
    Holds-IsStable store laws (record_path store entry.generation entry.deployment_set_id) p.0
        (record_path-IsJson store entry.generation entry.deployment_set_id)
        (record_path_apart store entry.generation entry.deployment_set_id) s t q p.1,
    p.2,
  )

  module _ (G : os.Machine → Type 0) (stable : IsStable store laws G) where
    accepted :
        (n : ℕ) (key : crypto.SigningKey) (name : Text) (latest : Option PromotionRecord)
        (bytes : List ℕ)
        → generation_of latest ≡ n % u64_mod
        → Triple
            (λ s.
              (G s × Recorded key latest s) × Holds store laws (journal_path store name) bytes s)
            (or_exit {os = os}
              (λ e. trust (file (journal_path store name)) e)
              (check_record store (journal_path store name) latest bytes key))
            (λ entry s.
              (G s × Recorded key (some entry) s) × (entry.generation ≡ (n + 1) % u64_mod))
            (λ e. G)
    accepted n key name latest bytes count =
        Triple-or_exit _ _
          (λ entry e s p.
            let (named, chained, opened) =
              check_record-ok store (journal_path store name) latest bytes key entry e in
            (
              (p.0.0, (bytes, subst (λ q. files s q ≡ some bytes) named p.1, opened)),
              counted entry.generation (generation_of latest) n count
                  (check_chain-generation store latest entry chained),
            ))
          (λ d e s p. p.0.0)

    read_records-Triple :
        (n : ℕ) (key : crypto.SigningKey) (names : List Text) (latest : Option PromotionRecord)
        → generation_of latest ≡ n % u64_mod
        → Triple
            (λ s. G s × Recorded key latest s)
            (read_records store key names latest)
            (λ o s. (G s × Recorded key o s) × (generation_of o ≡ (n + length names) % u64_mod))
            (λ e. G)
    unfolding read_records
    read_records-Triple n key [] latest count =
        Triple-pure latest (λ s p. (p, omega (arith, count)))
    read_records-Triple n key (name ∷ names) latest count =
        Triple-bind
          (λ bytes s.
            (G s × Recorded key latest s) × Holds store laws (journal_path store name) bytes s)
          _ _
          (Triple-weaken _ (λ e s. G s × Recorded key latest s) _
            (read-Triple store laws (λ s. G s × Recorded key latest s)
              (both-IsStable store laws stable (Recorded-IsStable key latest))
              (journal_path store name))
            (λ s p. p) (λ a s p. p) (λ e s p. p.0))
          (λ bytes.
            Triple-bind
              (λ entry s.
                (G s × Recorded key (some entry) s) × (entry.generation ≡ (n + 1) % u64_mod))
              _ _ (accepted n key name latest bytes count)
              (λ entry. Triple-given _ (λ count'.
                Triple-weaken
                  (λ o s.
                    (G s × Recorded key o s) × (generation_of o ≡ (n + 1 + length names) % u64_mod))
                  (λ e. G) _ (read_records-Triple (n + 1) key names (some entry) count') (λ s p. p)
                  (λ o s p. (p.0, omega (arith, p.1))) (λ e s p. p))))

    -- The latest record, if there is one, stands under its name.
    pub latest_record-Triple :
        (key : crypto.SigningKey)
        → Triple G (latest_record_with_key store key) (λ o s. G s × Recorded key o s) (λ e. G)
    unfolding latest_record_with_key
    latest_record-Triple key =
        Triple-bind (λ names. G) _ _
          (Triple-quiet store laws G stable _ (os.read_dir (promotions_dir store))
            (λ s. Same-IsQuiet store (laws.read_dir_same (promotions_dir store) s)))
          (λ names.
            Triple-weaken
              (λ o s.
                (G s × Recorded key o s)
                × (generation_of o ≡ (0 + length (sort_names (json_names names))) % u64_mod))
              (λ e. G) _ (read_records-Triple 0 key (sort_names (json_names names)) none refl)
              (λ s g. (g, tt)) (λ o s p. p.0) (λ e s g. g))

  -- Records that pass the check count up from 1: after all names have been read, the latest record's
  -- generation is the number of the names, as a u64, and 0 stands for no record.
  pub read_records-counts :
      (key : crypto.SigningKey) (names : List Text) (w : World os) (o : Option PromotionRecord)
      → (read_records store key names none w).0 ≡ ok o
      → generation_of o ≡ length names % u64_mod
  read_records-counts key names w o e =
      let counts =
        (Ends-value _ _ (read_records store key names none w).0
          (read_records store key names none w).1.machine o
          ((read_records-Triple (λ s. Unit {0}) (λ s t q g. g) 0 key names none refl).at w (tt, tt))
          e).1 in
      omega (arith, counts)
