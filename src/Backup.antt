-- ===== src/Backup.antt =====
-- backup/backup.go: the daily snapshot and its retention. The directory is the list of its entries
-- in any order; what the operating system and the snapshot answer is the record `Answers`. The
-- date comes in as text. An entry that vanishes between the two reads of List is not
-- modelled.
pub mod Retention
pub mod Streaming
use neokit.Base.{
  ℕ, ◌++◌, ◌≡◌, ℤ, pos, pos_part, leb, ltb, leb_ℤ, ltb_ℤ, Bool, true, false, not, ◌&&◌, ◌||◌, ◌==◌,
  List, [], ◌∷◌, Option, none, some, if◌then◌else◌, any, keep, map, length, take, drop, reverse,
}
use neokit.Text.{Text, text_eq, trim_space, codes}

pub record ClockTime : Type 0 where
  pub hour : ℤ
  pub minute : ℤ

-- valid
unfoldable pub valid : ClockTime → Bool
valid c =
    leb_ℤ (pos 0) c.hour
    && leb_ℤ c.hour (pos 23)
    && leb_ℤ (pos 0) c.minute
    && leb_ℤ c.minute (pos 59)

pub record Options : Type 0 where
  pub dir : Text
  pub retention : ℤ
  pub at : Option ClockTime
  pub prefix : Text

pub record Service : Type 0 where
  pub dir : Text
  pub retention : ℕ
  pub prefix : Text
  pub at : ClockTime

abbrev pub default_prefix : Text
default_prefix = codes "backup-"

abbrev pub default_at : ClockTime
default_at = record { hour = pos 3; minute = pos 0 }

-- New; `none` is its panic. A retention below one is one.
unfoldable pub new_service : Options → Option Service
unfolding valid
new_service o =
    let at : ClockTime = elim o.at [ none ↦ default_at | some c ↦ c ] in
    if not (valid at)
    then none
    else some (record {
      dir = o.dir;
      retention = if ltb_ℤ o.retention (pos 1) then 1 else pos_part o.retention;
      prefix = elim o.prefix [ [] ↦ default_prefix | c ∷ rest ↦ c ∷ rest ];
      at = at;
    })

-- An entry of the directory.
pub record File : Type 0 where
  pub name : Text
  pub is_dir : Bool

pub record Answers : Type 0 where
  pub mkdir_ok : Bool
  pub snapshot_ok : Bool
  pub readable : Bool
  pub removable : Text → Bool

pub data Failure : Type 0 where
  mkdir_failed snapshot_failed : Failure

-- Go's `>` on strings.
unfoldable pub later : Text → Text → Bool
later [] t = false
later (c ∷ s) [] = true
later (c ∷ s) (d ∷ t) = ltb d c || (c == d && later s t)

abbrev pub has_prefix : Text → Text → Bool
has_prefix p s = text_eq (take (length p) s) p

abbrev pub has_suffix : Text → Text → Bool
has_suffix p s = has_prefix (reverse p) (reverse s)

-- isBackupName, of an entry that is no directory.
unfoldable pub is_backup : Service → File → Bool
unfolding text_eq
is_backup s f = not f.is_dir && (has_prefix s.prefix f.name && has_suffix (codes ".db") f.name)

-- sort.Slice by name, the latest first.
unfoldable pub insert_name : Text → List Text → List Text
unfolding later
insert_name n [] = n ∷ []
insert_name n (m ∷ ns) = let rest = insert_name n ns in if later m n then m ∷ rest else n ∷ m ∷ ns

unfoldable pub sort_names : List Text → List Text
unfolding insert_name
sort_names [] = []
sort_names (n ∷ ns) = insert_name n (sort_names ns)

abbrev pub names_of : List File → List Text
names_of files = map (λ f. f.name) files

-- List, of a directory that is read.
unfoldable pub list_backups : Service → List File → List Text
unfolding sort_names is_backup
list_backups s files = sort_names (names_of (keep (is_backup s) files))

-- What prune deletes: all but the newest.
unfoldable pub doomed : Service → List File → List Text
unfolding list_backups
doomed s files =
    let list = list_backups s files in
    if leb (length list) s.retention then [] else drop s.retention list

abbrev pub named : List Text → Text → Bool
named ns n = any (λ m. text_eq m n) ns

-- prune: a file that cannot be removed is left alone.
unfoldable pub prune : Answers → Service → List File → List File
unfolding doomed
prune os s files =
    if not os.readable
    then files
    else keep (λ f. not (named (doomed s files) f.name && os.removable f.name)) files

abbrev pub path_of : Service → Text → Text
path_of s day = (s.prefix ++ day) ++ codes ".db"

-- WriteDaily
unfoldable pub write_daily : Answers → Service → Text → List File → List File × Option Failure
unfolding prune
write_daily os s day files = elim (trim_space s.dir) [
  | [] ↦ (files, none)
  | c ∷ rest ↦
      if not os.mkdir_ok
      then (files, some mkdir_failed)
      else if named (names_of files) (path_of s day)
      then (prune os s files, none)
      else if not os.snapshot_ok
      then (files, some snapshot_failed)
      else (prune os s (record { name = path_of s day; is_dir = false } ∷ files), none)
]
