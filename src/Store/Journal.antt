-- ===== src/Store/Journal.antt =====
-- `latest_record_with_key` of src/release.rs: the records of promotions, read in the order of their
-- names and checked as one chain.
use nixdeploy_corbet_ch.World.{FilePath, ◌>>=◌, pure, or_exit}
use nixdeploy_corbet_ch.Release.{PromotionRecord}
use nixdeploy_corbet_ch.Store.Records.{check_record}
use nixdeploy_corbet_ch.Store.{
  file, directory, trust, extension, same_text, ReleaseStore, promotions_dir, Store, call_at, read,
}
use nixdeploy_corbet_ch.Base.{if◌then◌else◌, Ordering, Bool, Option, none, some, List, [], ◌∷◌}
use nixdeploy_corbet_ch.Text.{Text, codes, compare_text}

unfoldable pub insert_name : Text → List Text → List Text
insert_name name [] = name ∷ []
insert_name name (first ∷ names) =
    let further = first ∷ insert_name name names in
    elim (compare_text name first) [ Ordering.gt ↦ further | _ ↦ name ∷ first ∷ names ]

-- `paths.sort()`: one directory's paths are in the order of their names.
unfoldable pub sort_names : List Text → List Text
unfolding insert_name
sort_names [] = []
sort_names (name ∷ names) = insert_name name (sort_names names)

unfoldable pub is_json : Text → Bool
unfolding extension
is_json name = same_text (extension name) (some (codes "json"))

unfoldable pub json_names : List Text → List Text
unfolding is_json
json_names [] = []
json_names (name ∷ names) =
    let rest = json_names names in if is_json name then name ∷ rest else rest

module _ (store : ReleaseStore) where
  open store use {crypto, forms}

  abbrev pub journal_path : Text → FilePath
  journal_path name = record { dir = promotions_dir store; name = name }

  unfoldable pub read_records :
      crypto.SigningKey → List Text → Option PromotionRecord → Store store (Option PromotionRecord)
  unfolding check_record
  read_records key [] latest = pure latest
  read_records key (name ∷ names) latest = do
    bytes ← read store (journal_path name)
    entry ←
        or_exit (λ e. trust (file (journal_path name)) e)
          (check_record store (journal_path name) latest bytes key)
    read_records key names (some entry)

  unfoldable pub latest_record_with_key : crypto.SigningKey → Store store (Option PromotionRecord)
  unfolding read_records json_names sort_names
  latest_record_with_key key = do
    names ←
        call_at store (directory (promotions_dir store)) (store.os.read_dir (promotions_dir store))
    read_records key (sort_names (json_names names)) none
