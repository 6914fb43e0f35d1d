-- ===== src/Examples/Disk.antt =====
-- A file system whose machine is what each file holds. Every call succeeds where it can.

use nixdeploy_corbet_ch.Command.{ran}
use nixdeploy_corbet_ch.World.{FilePath, printed, FileRead, contents, no_such_file, Os}
use nixdeploy_corbet_ch.World.Files.{Contents, Same, Becomes, Either, Reads, FileLaws}
use nixdeploy_corbet_ch.Store.{same_path}
use nixdeploy_corbet_ch.Store.Chain.{same_path-eq}
use nixdeploy_corbet_ch.Base.{
  if◌then◌else◌, Bool-cases, Result, ok, err, ℕ, ◌≡◌, refl, sym, ◌∙◌, ◌≢◌, inl, inr, Bool, true,
  false, Option, none, some, List, [],
}
use nixdeploy_corbet_ch.Text.{Text, codes}
use nixdeploy_corbet_ch.Text.Laws.{eq_refl}

abbrev update : FilePath → Option (List ℕ) → Contents → Contents
update p c m q = if same_path q p then c else m q

abbrev read_of : Option (List ℕ) → FileRead
read_of none = no_such_file
read_of (some b) = contents b

-- Texts on this disk are ASCII.
abbrev text_of : Option (List ℕ) → Result Text Text
text_of none = err (codes "absent")
text_of (some b) = ok b

abbrev does : Contents → Result (Unit {0}) Text × Contents
does m = (ok tt, m)

-- `create_new` and `hard_link` refuse a file that is there.
abbrev unless_there : Option (List ℕ) → Contents → Contents → Result (Unit {0}) Text × Contents
unless_there none m changed = (ok tt, changed)
unless_there (some b) m changed = (err (codes "exists"), m)

abbrev there : Option (List ℕ) → Bool
there none = false
there (some b) = true

-- Every directory lists the given names.
abbrev pub disk_os : List Text → Os
disk_os names = record {
  Machine = Contents;
  status = λ bin args m. (ran (some 0) true, m);
  output = λ bin args m. (printed true [], m);
  get_url = λ url m. (ok [], m);
  hostname = λ m. ok (codes "web");
  now_unix = λ m. 5;
  process_id = 42;
  create_dir_all = λ d m. does m;
  read_file = λ p m. (read_of (m p), m);
  create_file = λ p m. does (update p (some []) m);
  write_all = λ p b m. does (update p (some b) m);
  set_permissions = λ p n m. does m;
  sync_all = λ p m. does m;
  rename = λ a b m. does (update a none (update b (m a) m));
  delta_sources = λ m. err (codes "none");
  compatibility_facts = λ m. err (codes "none");
  remove_file = λ p m. (ok (there (m p)), update p none m);
  create_new = λ p m. unless_there (m p) m (update p (some []) m);
  hard_link = λ a b m. unless_there (m b) m (update b (m a) m);
  sync_dir = λ d m. does m;
  file_exists = λ p m. there (m p);
  read_dir = λ d m. (ok names, m);
  open_lock = λ p m. does (update p (some []) m);
  lock_exclusive = λ p m. does m;
  unlock = λ p m. (tt, m);
  read_to_string = λ p m. (text_of (m p), m);
  file_mode = λ p m. none;
}

same_path_refl : (p : FilePath) → same_path p p ≡ true
same_path_refl p = rw (eq_refl p.dir, eq_refl p.name) refl

same_path_ne : (q p : FilePath) → q ≢ p → same_path q p ≡ false
same_path_ne q p n = elim (Bool-cases (same_path q p)) [
  | inl e ↦ absurd (n (same_path-eq q p e))
  | inr e ↦ e
]

pub update-Becomes :
    (p : FilePath) (c : Option (List ℕ)) (m : Contents) → Becomes p c m (update p c m)
update-Becomes p c m = (rw (same_path_refl p) refl, λ q n. rw (same_path_ne q p n) refl)

pub read_of-Reads : (c : Option (List ℕ)) → Reads (read_of c) c
read_of-Reads none = refl
read_of-Reads (some b) = refl

pub refuses :
    (p : FilePath) (c d : Option (List ℕ)) (m : Contents)
    → m p ≡ d
    → Either
        (unless_there d m (update p c m)).0
        ((m p ≡ none) × Becomes p c m (unless_there d m (update p c m)).1)
        (Same m (unless_there d m (update p c m)).1)
refuses p c none m e = (e, update-Becomes p c m)
refuses p c (some b) m e = λ q. refl

abbrev pub disk_laws : (names : List Text) → FileLaws (disk_os names)
disk_laws names = record {
  files = λ m. m;
  read_file_reads = λ p m. read_of-Reads (m p);
  read_file_same = λ p m q. refl;
  create_file_law = λ p m. update-Becomes p (some []) m;
  write_all_law = λ p b m e. update-Becomes p (some b) m;
  write_all_apart = λ p b m. (update-Becomes p (some b) m).1;
  set_permissions_same = λ p n m q. refl;
  sync_all_same = λ p m q. refl;
  sync_dir_same = λ d m q. refl;
  create_dir_all_same = λ d m q. refl;
  rename_law = λ p q m n. (
    (update-Becomes p none (update q (m p) m)).1 q (λ e. n (sym e)) ∙ (update-Becomes q (m p) m).0,
    (update-Becomes p none (update q (m p) m)).0,
    λ r a b. (update-Becomes p none (update q (m p) m)).1 r a ∙ (update-Becomes q (m p) m).1 r b,
  );
  remove_file_law = λ p m. update-Becomes p none m;
  create_new_law = λ p m. refuses p (some []) (m p) m refl;
  hard_link_law = λ p q m. refuses q (m p) (m q) m refl;
  read_dir_same = λ d m q. refl;
  open_lock_apart = λ p m. (update-Becomes p (some []) m).1;
  lock_exclusive_same = λ p m q. refl;
  unlock_same = λ p m q. refl;
  read_to_string_same = λ p m q. refl;
}
