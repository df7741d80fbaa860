-- ===== src/Stacks/Transit.antt =====
-- Where a move finds the archive that it restores: internal/stacks/move_store.go and move.go.
pub mod Newest
use poor_man_cluster.Common.{
  ℕ, String, ◌==◌, Bool, true, false, not, ◌&&◌, ◌||◌, Option, none, some, List, [], ◌∷◌,
  if◌then◌else◌, ltb, leb, eqb,
}
use poor_man_cluster.Common.Errors.{Error, plain, wrapped, Result, ok, err}
use poor_man_cluster.Common.Text.{trim_prefix, has_suffix, split}
use poor_man_cluster.Common.Paths.{clean, base, join}
use Prim.Native.Char.{code}
use Prim.Native.String
use text.Mathlib.Text.{starts_with}

-- The text in front of the first dash.
unfoldable pub until_dash : String → Option String
until_dash String.[] = none
until_dash (String.◌∷◌ c s) =
    let rest = until_dash s in
    if eqb (code c) b'-'
    then some ""
    else elim rest [ none ↦ none | some t ↦ some (String.◌∷◌ c t) ]

-- `archiveNodeID`
unfoldable pub archive_node_id : String → String
unfolding until_dash
archive_node_id key = elim (until_dash (trim_prefix key "backup-")) [ none ↦ "" | some t ↦ t ]

-- An object of the store.
pub record Object : Type 0 where
  pub key : String
  pub last_modified : ℕ

abbrev pub is_backup_key : String → Bool
is_backup_key key = starts_with key "backup-" && has_suffix key ".tar.gz"

-- The objects that the loop of `newestArchiveObject` does not pass over.
unfoldable pub is_candidate : String → Object → Bool
unfolding archive_node_id
is_candidate source_node o =
    is_backup_key o.key && (source_node == "" || archive_node_id o.key == source_node)

abbrev pub newer_of : Option Object → Object → Object
newer_of none o = o
newer_of (some found) o = if ltb found.last_modified o.last_modified then o else found

-- The loop; no object is found as long as `key` is blank.
unfoldable pub newest_from : String → Option Object → List Object → Option Object
unfolding is_candidate
newest_from source_node found [] = found
newest_from source_node found (o ∷ os) =
    newest_from source_node (if is_candidate source_node o then some (newer_of found o) else found)
      os

abbrev key_of : Option Object → Result String
key_of none = err (plain "move: no archive in the object store")
key_of (some o) = ok o.key

-- `newestArchiveObject`, by whether the store is configured and what it lists.
unfoldable pub newest_archive_object : Bool → Result (List Object) → String → Result String
unfolding newest_from
newest_archive_object configured listing source_node =
    if not configured
    then err (plain "move: cannot move between nodes without a shared archive")
    else elim listing [
      | err e ↦ err (wrapped "move: list archives in the object store" e)
      | ok os ↦ key_of (newest_from source_node none os)
    ]

-- `store.Backup`, by the columns that a move writes or reads.
pub record Backup : Type 0 where
  pub id : ℕ
  pub status : String
  pub archive_paths : String
  pub started_at : ℕ

abbrev pub later_of : Option Backup → Backup → Backup
later_of none b = b
later_of (some found) b = if ltb found.started_at b.started_at then b else found

-- The loop of `fetchNewestArchiveFromS3`.
unfoldable pub newest_backup : Option Backup → List Backup → Option Backup
newest_backup found [] = found
newest_backup found (b ∷ bs) =
    newest_backup
      (if not (b.status == "succeeded") || b.archive_paths == ""
        then found
        else some (later_of found b))
      bs

abbrev first_of : List String → String
first_of [] = ""
first_of (x ∷ xs) = x

abbrev archive_of : Option Backup → Result String
archive_of none = err (plain "move: no succeeded backup row found")
archive_of (some b) =
    let key = base (first_of (split b',' b.archive_paths)) in
    if has_suffix key ".tar.gz"
    then ok key
    else err (plain "move: newest succeeded archive does not look like a backup archive")

abbrev fetched : (String → Option Error) → String → Result String → Result String
fetched fetch dir (err e) = err e
fetched fetch dir (ok key) = elim (fetch key) [
  | none ↦ ok (join dir (String.◌++◌ "s3restore-" key))
  | some e ↦ err (wrapped "move: fetch from S3" e)
]

-- `fetchNewestArchiveFromS3`, over the newest hundred rows; `fetch` downloads a key, the making of the
-- directory included.
unfoldable pub fetch_newest_archive :
    Bool → Result (List Backup) → (String → Option Error) → String → Result String
unfolding newest_backup split base join
fetch_newest_archive configured rows fetch dir =
    if not configured
    then err (plain "move: S3 restore requested but not configured")
    else elim rows [
      | err e ↦ err (wrapped "move: list backups for S3 restore" e)
      | ok bs ↦ fetched fetch dir (archive_of (newest_backup none bs))
    ]

-- An entry of the archive directory.
pub record Entry : Type 0 where
  pub name : String
  pub is_dir : Bool
  pub modified : Option ℕ

-- The newest path so far, and when it was changed.
abbrev Found : Type 0
Found = String × ℕ

abbrev of_mtime : String → Found → Option ℕ → Found
of_mtime path (newest, at) none = (newest, at)
of_mtime path (newest, at) (some m) = if leb at m then (path, m) else (newest, at)

-- The loop of `resolveArchivePath`, whose host path is in the archive directory.
unfoldable pub newest_host : (String → Option ℕ) → String → Found → List String → Found
unfolding clean base join
newest_host stat dir found [] = found
newest_host stat dir found (p ∷ ps) =
    let name = base (clean p) in
    let host = join dir name in
    newest_host stat dir
      (if starts_with name "backup-" && has_suffix name ".tar.gz"
        then of_mtime host found (stat host)
        else found)
      ps

abbrev since : ℕ → Option ℕ → Option ℕ
since start none = none
since start (some m) = if leb start m then some m else none

-- The loop of `newestArchiveSince`.
unfoldable pub newest_since : ℕ → String → Found → List Entry → Found
unfolding join
newest_since start dir found [] = found
newest_since start dir found (e ∷ es) =
    newest_since start dir
      (if e.is_dir
          || not (has_suffix e.name ".tar.gz")
          || not (starts_with e.name "backup-")
          || starts_with e.name "pmcluster-ctlplane-"
        then found
        else of_mtime (join dir e.name) found (since start e.modified))
      es

abbrev or_scan : ℕ → String → Result (List Entry) → Found → String
or_scan start dir entries (host, at) =
    if not (host == "")
    then host
    else elim entries [ err e ↦ "" | ok es ↦ (newest_since start dir ("", 0) es).0 ]

-- `resolveArchivePath`: "" if there is none.
unfoldable pub resolve_archive_path :
    (String → Option ℕ) → Result (List Entry) → String → ℕ → List String → String
unfolding newest_host newest_since
resolve_archive_path stat entries dir start paths =
    or_scan start dir entries (newest_host stat dir ("", 0) paths)
