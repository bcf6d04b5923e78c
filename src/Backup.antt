-- ===== src/Backup.antt =====
-- backend/app/services/backup.py. The directory of the backups is the list of its file names, in no
-- order; copying the database is SQLite's, `strftime` and `os.remove` are the system's.
pub mod Rotation
use clusteration.Base.{
  ℕ, zero, suc, ◌+◌, ◌*◌, ◌-◌, String, ◌<>◌, Bool, true, false, not, ◌&&◌, ◌||◌, List, [], ◌∷◌,
  ◌++◌, length, take, keep, any, max, Option, none, some, ◌=ₛ◌, ◌==◌, ltb, if◌then◌else◌, is_empty,
}
use clusteration.Base.Text.{startswith, drop_chars, remove_suffix?, str_leb}
use clusteration.Base.Exec.{Exc, Result, ok, err, Exec}
use clusteration.Settings.{Settings}
use clusteration.Readiness.{Url, MakeUrl, or_empty}

-- The system's part. `copy` is the backup of the database into a file of the directory.
pub record System : Type 0 where
  pub stamp : ℕ → String
  pub copy : String → Exec (List String) Unit
  pub removes : String → Bool
  pub exists : String → Bool

sqlite_path_of : Option Url → Option String
sqlite_path_of none = none
sqlite_path_of (some url) =
    if not (url.backend =ₛ "sqlite")
    then none
    else if or_empty url.database =ₛ ""
    then none
    else url.database

-- `sqlite_db_path`
unfoldable pub sqlite_db_path : MakeUrl → String → Option String
unfolding sqlite_path_of
sqlite_db_path make_url database_url = sqlite_path_of (make_url database_url)

abbrev pub is_some : Option String → Bool
is_some none = false
is_some (some _) = true

-- The pattern `vmpanel-*.db`
unfoldable pub is_snapshot : String → Bool
unfolding startswith drop_chars remove_suffix?
is_snapshot name = startswith name "vmpanel-" && is_some (remove_suffix? (drop_chars 8 name) ".db")

unfoldable pub insert_sorted : String → List String → List String
unfolding str_leb
insert_sorted x [] = x ∷ []
insert_sorted x (y ∷ ys) = if str_leb x y then x ∷ y ∷ ys else y ∷ insert_sorted x ys

-- `sorted(names)`
unfoldable pub sorted : List String → List String
unfolding insert_sorted
sorted [] = []
sorted (x ∷ xs) = insert_sorted x (sorted xs)

unfoldable pub snapshots : List String → List String
unfolding is_snapshot
snapshots = keep is_snapshot

-- `snaps[:-keep] if keep > 0 else []`
unfoldable pub outdated : ℕ → List String → List String
outdated zero snaps = []
outdated (suc n) snaps = take (length snaps - suc n) snaps

abbrev pub has : String → List String → Bool
has name = any (λ x. name =ₛ x)

-- The loop over `os.remove`; a file that cannot be removed stays.
unfoldable pub remove_all : System → List String → List String → List String
remove_all sys olds = keep (λ name. not (has name olds && sys.removes name))

unfoldable pub rotate : System → ℕ → List String → List String
unfolding snapshots sorted outdated remove_all
rotate sys n files = remove_all sys (outdated n (sorted (snapshots files))) files

abbrev pub destination : System → ℕ → String
destination sys now = "vmpanel-" <> sys.stamp now <> ".db"

copied : System → ℕ → String → Result {0} Unit → List String → Result String × List String
unfolding rotate
copied sys n dest (err e) files = (err e, files)
copied sys n dest (ok _) files = (ok dest, rotate sys n files)

-- `_run_backup`
unfoldable pub run_backup : System → ℕ → ℕ → Exec (List String) String
unfolding copied
run_backup sys now n files =
    let (result, files') = sys.copy (destination sys now) files in
    copied sys n (destination sys now) result files'

as_some : Result String × List String → Result (Option String) × List String
as_some (ok dest, files) = (ok (some dest), files)
as_some (err e, files) = (err e, files)

backup_of : System → Settings → ℕ → Option String → Exec (List String) (Option String)
unfolding run_backup as_some
backup_of sys settings now none files = (ok none, files)
backup_of sys settings now (some path) files =
    if not (sys.exists path)
    then (ok none, files)
    else as_some (run_backup sys now (max 1 settings.backup_keep) files)

-- `make_backup`
unfoldable pub make_backup : MakeUrl → System → Settings → ℕ → Exec (List String) (Option String)
unfolding sqlite_db_path backup_of
make_backup make_url sys settings now =
    backup_of sys settings now (sqlite_db_path make_url settings.database_url)

abbrev pub interval : Settings → ℕ
interval settings = max 1 settings.backup_interval_hours * 3600

-- The first `n` rounds of the loop, from `now` on; an exception is logged.
rounds : MakeUrl → System → Settings → ℕ → ℕ → List String → List String
unfolding make_backup
rounds make_url sys settings zero now files = files
rounds make_url sys settings (suc n) now files =
    rounds make_url sys settings n (now + interval settings)
      (make_backup make_url sys settings now files).1

-- `backup_loop`, cut after `n` rounds
unfoldable pub backup_loop : MakeUrl → System → Settings → ℕ → ℕ → List String → List String
unfolding sqlite_db_path rounds
backup_loop make_url sys settings n now files =
    if is_some (sqlite_db_path make_url settings.database_url)
    then rounds make_url sys settings n now files
    else files
