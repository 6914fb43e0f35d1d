-- ===== src/World/Files.antt =====
-- The file operations of the standard library, by what they do to the contents of files. Each may
-- fail at any time, so a run in which all operations after some point fail is one that was cut off
-- there.
use nixdeploy_corbet_ch.World.Triple.{Ends}
use nixdeploy_corbet_ch.World.{FilePath, FileRead, contents, no_such_file, unreadable, Os}
use nixdeploy_corbet_ch.Base.{
  Result, ok, err, ℕ, ◌≡◌, ◌∙◌, ◌≢◌, Option, none, some, List, [], ℕ_discrete,
}
use nixdeploy_corbet_ch.Text.{Text}

abbrev pub Contents : Type 0
Contents = FilePath → Option (List ℕ)

-- The same files.
abbrev pub Same : Contents → Contents → Type 0
Same before after = (p : FilePath) → after p ≡ before p

-- The same files but for the contents of one.
abbrev pub Apart : FilePath → Contents → Contents → Type 0
Apart p before after = (q : FilePath) → q ≢ p → after q ≡ before q

abbrev pub Becomes : FilePath → Option (List ℕ) → Contents → Contents → Type 0
Becomes p c before after = (after p ≡ c) × Apart p before after

-- A successful call satisfies `P`, a failed one `X`.
abbrev pub Either : {A : Type 0} → Result A Text → Type 0 → Type 0 → Type 0
Either (ok a) P X = P
Either (err e) P X = X

abbrev pub Reads : FileRead → Option (List ℕ) → Type 0
Reads (contents b) c = c ≡ some b
Reads no_such_file c = c ≡ none
Reads (unreadable e) c = Unit

pub Either-Ends :
    {M A : Type 0} {P X : Type 0} (Q : A → M → Type 0) (Y : Text → M → Type 0) (r : Result A Text)
    (s : M)
    → Either r P X
    → ((a : A) → P → Q a s)
    → ((e : Text) → X → Y e s)
    → Ends Q Y r s
Either-Ends Q Y (ok a) s h hq hx = hq a h
Either-Ends Q Y (err e) s h hq hx = hx e h

-- Whether or not a call succeeds.
pub Ends-both :
    {M A : Type 0} (Q : M → Type 0) (r : Result A Text) (s : M) → Q s → Ends (λ a. Q) (λ e. Q) r s
Ends-both Q (ok a) s q = q
Ends-both Q (err e) s q = q

pub Same-Apart : (p : FilePath) {a b : Contents} → Same a b → Apart p a b
Same-Apart p h q n = h q

pub Apart-trans : (p : FilePath) {a b c : Contents} → Apart p a b → Apart p b c → Apart p a c
Apart-trans p f g q n = g q n ∙ f q n

pub Apart-Becomes :
    (p : FilePath) {x : Option (List ℕ)} {a b c : Contents}
    → Apart p a b
    → Becomes p x b c
    → Becomes p x a c
Apart-Becomes p f (e, g) = (e, Apart-trans p f g)

pub Becomes-Same :
    (p : FilePath) {x : Option (List ℕ)} {a b c : Contents}
    → Becomes p x a b
    → Same b c
    → Becomes p x a c
Becomes-Same p (e, f) g = (g p ∙ e, Apart-trans p f (Same-Apart p g))

pub FilePath-discrete : Discrete FilePath
FilePath-discrete = hlevel ℕ_discrete

pub record FileLaws (os : Os) : Type 1 where
  pub files : os.Machine → Contents
  pub read_file_reads : (p : FilePath) (m : os.Machine) → Reads (os.read_file p m).0 (files m p)
  pub read_file_same : (p : FilePath) (m : os.Machine) → Same (files m) (files (os.read_file p m).1)
  pub create_file_law :
      (p : FilePath) (m : os.Machine)
      → Either
          (os.create_file p m).0
          (Becomes p (some []) (files m) (files (os.create_file p m).1))
          (Same (files m) (files (os.create_file p m).1))
  -- A write that fails may have written a part.
  pub write_all_law :
      (p : FilePath) (b : List ℕ) (m : os.Machine)
      → Either
          (os.write_all p b m).0
          (files m p ≡ some [] → Becomes p (some b) (files m) (files (os.write_all p b m).1))
          (Apart p (files m) (files (os.write_all p b m).1))
  pub write_all_apart :
      (p : FilePath) (b : List ℕ) (m : os.Machine)
      → Apart p (files m) (files (os.write_all p b m).1)
  pub set_permissions_same :
      (p : FilePath) (n : ℕ) (m : os.Machine) → Same (files m) (files (os.set_permissions p n m).1)
  pub sync_all_same : (p : FilePath) (m : os.Machine) → Same (files m) (files (os.sync_all p m).1)
  pub sync_dir_same : (d : Text) (m : os.Machine) → Same (files m) (files (os.sync_dir d m).1)
  pub create_dir_all_same :
      (d : Text) (m : os.Machine) → Same (files m) (files (os.create_dir_all d m).1)
  pub rename_law :
      (p q : FilePath) (m : os.Machine)
      → p ≢ q
      → Either
          (os.rename p q m).0
          ((files (os.rename p q m).1 q ≡ files m p)
            × (files (os.rename p q m).1 p ≡ none)
            × ((r : FilePath) → r ≢ p → r ≢ q → files (os.rename p q m).1 r ≡ files m r))
          (Same (files m) (files (os.rename p q m).1))
  pub remove_file_law :
      (p : FilePath) (m : os.Machine)
      → Either
          (os.remove_file p m).0
          (Becomes p none (files m) (files (os.remove_file p m).1))
          (Same (files m) (files (os.remove_file p m).1))
  pub create_new_law :
      (p : FilePath) (m : os.Machine)
      → Either
          (os.create_new p m).0
          ((files m p ≡ none) × Becomes p (some []) (files m) (files (os.create_new p m).1))
          (Same (files m) (files (os.create_new p m).1))
  pub hard_link_law :
      (p q : FilePath) (m : os.Machine)
      → Either
          (os.hard_link p q m).0
          ((files m q ≡ none) × Becomes q (files m p) (files m) (files (os.hard_link p q m).1))
          (Same (files m) (files (os.hard_link p q m).1))
  pub read_dir_same : (d : Text) (m : os.Machine) → Same (files m) (files (os.read_dir d m).1)
  pub open_lock_apart :
      (p : FilePath) (m : os.Machine) → Apart p (files m) (files (os.open_lock p m).1)
  pub lock_exclusive_same :
      (p : FilePath) (m : os.Machine) → Same (files m) (files (os.lock_exclusive p m).1)
  pub unlock_same : (p : FilePath) (m : os.Machine) → Same (files m) (files (os.unlock p m).1)
  pub read_to_string_same :
      (p : FilePath) (m : os.Machine) → Same (files m) (files (os.read_to_string p m).1)

-- A program that begins on `before` and has changed no file yet read this text from the file.
abbrev pub IsRead : {os : Os} → FileLaws os → Contents → FilePath → Text → Type 0
IsRead {os} laws before path text =
    (u : os.Machine) × Same before (laws.files u) × ((os.read_to_string path u).0 ≡ ok text)
