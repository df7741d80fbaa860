-- ===== src/Backups/Retention.antt =====
-- internal/backups/prune_remote.go and prune.go: which artifacts the retention policy deletes.
-- `ParseArtifact` is a regular expression and a time layout, and a parameter here; `sort.Slice` is
-- one too, by what it makes of a list. Times are in nanoseconds and UTC, so that a calendar day is
-- a quotient; the windows are taken for not negative and far from the overflow of a `Duration`.
pub mod Floor
pub mod Windows
use poor_man_cluster.Common.{
  ℕ, zero, suc, ◌+◌, ◌*◌, ◌/◌, String, ◌==◌, Bool, true, false, not, ◌&&◌, Option, none, some, List,
  [], ◌∷◌, ◌++◌, if◌then◌else◌, ltb, eqb,
}
use Prim.Native.String.{◌++◌ as ◌+++◌}

-- `Retention`
pub record Retention : Type 0 where
  pub keep_hours : ℕ
  pub keep_days : ℕ
  pub keep_last : ℕ
  pub include_legacy : Bool

-- `DefaultRetention`
abbrev pub default_retention : Retention
default_retention = record { keep_hours = 48; keep_days = 3; keep_last = 2; include_legacy = false }

-- `Artifact`
pub record Artifact : Type 0 where
  pub stack : String
  pub node : String
  pub at : ℕ
  pub name : String

abbrev pub hour : ℕ
hour = 3_600_000_000_000

abbrev pub day : ℕ
day = 86_400_000_000_000

-- `policy.KeepLast`, at least 1.
abbrev pub floor_of : Retention → ℕ
floor_of policy = if ltb policy.keep_last 1 then 1 else policy.keep_last

-- `shouldDelete`; an age below a window is a time before the time plus the window.
unfoldable pub should_delete : ℕ → Retention → ℕ → Bool → Bool
should_delete at policy now is_newest_of_day =
    if ltb now (at + policy.keep_hours * hour)
    then false
    else if ltb (at + policy.keep_days * day) now
    then true
    else not is_newest_of_day

-- `a.At.Format("2006-01-02")`, as far as two of them are compared.
abbrev pub day_of : Artifact → ℕ
day_of a = a.at / day

-- `newestPerDay[day]`: the first of the sorted artifacts with the day.
unfoldable pub newest_per_day : ℕ → List Artifact → Option Artifact
newest_per_day d [] = none
newest_per_day d (a ∷ arts) = if eqb (day_of a) d then some a else newest_per_day d arts

-- `newestPerDay[day].Name == a.Name`; a missing key is an artifact without a name.
abbrev pub is_named : Option Artifact → Artifact → Bool
is_named none a = "" == a.name
is_named (some n) a = n.name == a.name

-- What a plan says: the artifacts to delete, and how many are kept.
pub record Plan : Type 0 where
  pub del : List Artifact
  pub kept : ℕ

-- The second loop of `planPrune` over the sorted artifacts `arts`, from index `i` on.
unfoldable pub judge : Retention → ℕ → List Artifact → ℕ → List Artifact → Plan
judge policy now arts i [] = record { del = []; kept = 0 }
judge policy now arts i (a ∷ rest) =
    let later = judge policy now arts (suc i) rest in
    if ltb i (floor_of policy)
    then record later { kept = suc later.kept }
    else if not (should_delete a.at policy now (is_named (newest_per_day (day_of a) arts) a))
    then record later { kept = suc later.kept }
    else record later { del = a ∷ later.del }

-- `planPrune`, over the groups in some order.
unfoldable pub plan_prune :
    (List Artifact → List Artifact) → List (List Artifact) → Retention → ℕ → Plan
plan_prune sort [] policy now = record { del = []; kept = 0 }
plan_prune sort (g ∷ by_stack) policy now =
    let first = judge policy now (sort g) 0 (sort g) in
    let others = plan_prune sort by_stack policy now in
    record { del = first.del ++ others.del; kept = first.kept + others.kept }

abbrev pub group_key : Artifact → String
group_key art = art.node +++ "/" +++ art.stack

-- `byStack[key] = append(byStack[key], art)`
unfoldable pub append_to : Artifact → List (String × List Artifact) → List (String × List Artifact)
append_to art [] = (group_key art, art ∷ []) ∷ []
append_to art ((k, arts) ∷ by_stack) =
    if k == group_key art
    then (k, arts ++ art ∷ []) ∷ by_stack
    else (k, arts) ∷ append_to art by_stack

-- `groupArtifacts`: the groups by their keys, and how many legacy archives were passed over.
pub record Grouped : Type 0 where
  pub by_stack : List (String × List Artifact)
  pub skipped : ℕ

abbrev grouped : Retention → Option Artifact → Grouped → Grouped
grouped policy none g = g
grouped policy (some art) g =
    if art.stack == "" && not policy.include_legacy
    then record g { skipped = suc g.skipped }
    else record g { by_stack = append_to art g.by_stack }

unfoldable pub group_from : (String → Option Artifact) → Retention → Grouped → List String → Grouped
unfolding append_to
group_from parse policy g [] = g
group_from parse policy g (n ∷ names) = group_from parse policy (grouped policy (parse n) g) names

unfoldable pub group_artifacts : (String → Option Artifact) → Retention → List String → Grouped
unfolding group_from
group_artifacts parse policy names =
    group_from parse policy (record { by_stack = []; skipped = 0 }) names

abbrev pub groups_of : List (String × List Artifact) → List (List Artifact)
groups_of [] = []
groups_of ((k, arts) ∷ by_stack) = arts ∷ groups_of by_stack
