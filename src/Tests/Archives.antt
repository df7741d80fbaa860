-- ===== src/Tests/Archives.antt =====
-- The retention of archives.
use poor_man_cluster.Common.{
  ℕ, ◌*◌, ◌≤◌, ◌≡◌, ◌≢◌, refl, String, ◌==◌, Bool, true, false, Option, none, some, List, [], ◌∷◌,
  arith, if◌then◌else◌, All, take, inl, inr,
}
use poor_man_cluster.Common.Errors.{Error, ok}
use poor_man_cluster.Backups.Retention.{
  Artifact, hour, default_retention, floor_of, day_of, newest_per_day, judge, should_delete,
  group_artifacts, group_from, append_to, plan_prune,
}
use poor_man_cluster.Backups.Retention.Floor.{drop, Subsequence, NotNewer, newest_kept}
use poor_man_cluster.Backups.Retention.Windows.{day_covered}
use poor_man_cluster.Common.{lookup, insert}
use poor_man_cluster.Backups.Drain.{
  Service, Round, Drained, drain, to_pause, left_running, counts_of, undo, scale_down, wait,
  still_running,
}
use poor_man_cluster.Backups.Drain.Undone.{
  DistinctNames, is_named, AllOrNothing, drain-AllOrNothing,
}
use poor_man_cluster.Backups.Prune.{
  Files, size_of, entries, Outside, candidates, planned, prune_artifacts,
}
use poor_man_cluster.Backups.Prune.Local.{IsOther, plan, prune_artifacts_leaves}

abbrev shop_at : ℕ → String → Artifact
shop_at hours name = record { stack = "shop"; node = "n1"; at = hours * hour; name = name }

-- Two archives of the dense window, two of one day behind it.
abbrev archives : List Artifact
archives = shop_at 230 "g" ∷ shop_at 220 "f" ∷ shop_at 190 "e" ∷ shop_at 180 "d" ∷ []

abbrev noon : ℕ
noon = 240 * hour

newest_kept_example :
    (1 ≤ floor_of default_retention)
    × Subsequence
        (judge default_retention noon archives 0 archives).del
        (drop (floor_of default_retention) archives)
    × All
        (NotNewer (take (floor_of default_retention) archives))
        (judge default_retention noon archives 0 archives).del
newest_kept_example = newest_kept default_retention noon archives (
  (omega arith, (omega arith, (omega arith, tt))),
  ((omega arith, (omega arith, tt)), ((omega arith, tt), (tt, tt))),
)

abbrev two : List Artifact
two = shop_at 190 "e" ∷ shop_at 180 "d" ∷ []

day_covered_example :
    (b : Artifact) × (newest_per_day (day_of (shop_at 180 "d")) two ≡ some b)
    × (day_of b ≡ day_of (shop_at 180 "d"))
    × ((shop_at 180 "d").at ≤ b.at)
    × All (λ (d : Artifact). d ≢ b) (judge default_retention noon two 0 two).del
day_covered_example =
    day_covered default_retention noon two (shop_at 180 "d") ((omega arith, tt), (tt, tt))
      (inr (inl refl)) (omega arith)

abbrev ancient : List Artifact
ancient = shop_at 30 "z" ∷ shop_at 20 "y" ∷ shop_at 10 "x" ∷ []

abbrev parse : String → Option Artifact
parse name = if name == "notes" then none else some (shop_at 10 name)

-- Every list of this test is already sorted.
abbrev outside : Outside
outside = record { parse = parse; sort = λ arts. arts; now = noon }

abbrev listing : List (String × Bool)
listing = ("x", false) ∷ ("y", false) ∷ ("z", false) ∷ ("old", true) ∷ []

abbrev files : Files
files = ("x", 7) ∷ ("y", 8) ∷ ("z", 9) ∷ ("notes", 1) ∷ []

abbrev refuses : String → Bool
refuses name = name == "q"

z_planned : IsOther "notes" (plan outside refuses listing default_retention files).del
unfolding planned candidates group_artifacts group_from append_to plan_prune judge should_delete
    newest_per_day
z_planned = ((refl, refl), tt)

prune_artifacts_leaves_example :
    (size_of "notes"
        (prune_artifacts outside refuses (entries listing) default_retention false files).1
      ≡ size_of "notes" files)
    × ((prune_artifacts outside refuses (entries listing) default_retention true files).1 ≡ files)
prune_artifacts_leaves_example =
    prune_artifacts_leaves outside refuses listing default_retention files false "notes" z_planned

abbrev silent : String → Option Error
silent key = none

-- A database that stops in time.
abbrev database : Service
database = record {
  service_id = "id1";
  name = "shop_db";
  stack = "shop";
  mode = "";
  run_once = false;
  desired = 2;
  replicas = 2;
}

abbrev stopped_round : Round
stopped_round = record {
  listing = ok (record database { replicas = 0 } ∷ []);
  late = false;
  cancelled = none;
}

abbrev drained : Drained
drained = record {
  scalings = ("id1", 0) ∷ [];
  report = record { stack = "shop"; paused = ("shop_db", 2) ∷ []; skipped = [] };
  on_undo = ("id1", 2) ∷ [];
  error = none;
}

drains : drain silent (stopped_round ∷ []) true "shop" (ok (database ∷ [])) ≡ some drained
unfolding drain to_pause left_running counts_of undo scale_down wait still_running lookup insert
drains = refl

own_names : DistinctNames (to_pause "shop" (database ∷ []))
unfolding to_pause is_named
own_names = (refl, tt)

drain-AllOrNothing_example : AllOrNothing (to_pause "shop" (database ∷ [])) drained
drain-AllOrNothing_example =
    drain-AllOrNothing silent (stopped_round ∷ []) "shop" (database ∷ []) drained own_names refl
      drains
