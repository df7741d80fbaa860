-- ===== src/Tests/Names.antt =====
-- Names of archives.
use poor_man_cluster.Common.{◌≡◌, refl, some, arith}
use poor_man_cluster.Stacks.Transit.{archive_node_id}
use poor_man_cluster.Backups.Artifacts.{parse_artifact, is_time}
use poor_man_cluster.Backups.Artifacts.Rendering.{Timestamp, sanitise_segment, artifact_name}
use poor_man_cluster.Backups.Artifacts.Names.{IsAlnum, all_chars}
use poor_man_cluster.Backups.Artifacts.Parsing.{IsTime, parse_artifact-artifact_name}

abbrev leap_day : Timestamp
leap_day = record { year = 2024; month = 2; day = 29; hour = 23; minute = 59; second = 7 }

-- A legacy archive, of a node whose name has dashes.
legacy :
    parse_artifact "/archive/backup-nxt-sw-1-m-2024-02-29T23-59-07.tar.gz"
    ≡ some (record {
      stack = "";
      node = "nxt-sw-1-m";
      at = leap_day;
      name = "backup-nxt-sw-1-m-2024-02-29T23-59-07.tar.gz";
    })
unfolding parse_artifact
legacy = refl

-- The removal of the marker leaves one that its own replacements make.
marker_left : sanitise_segment "shop-stack-stack-db" ≡ "shop-stack-db"
unfolding sanitise_segment
marker_left = refl

is_leap_day : IsTime leap_day
unfolding is_time
is_leap_day = record {
  fits = record {
    year = omega arith;
    month = omega arith;
    day = omega arith;
    hour = omega arith;
    minute = omega arith;
    second = omega arith;
  };
  valid = refl;
}

is_node : IsAlnum "id1"
unfolding all_chars
is_node = (refl, refl)

parse_artifact-artifact_name_example :
    (parse_artifact (artifact_name "khaal-pvc-cms" "id1" leap_day)
      ≡ some (record {
        stack = sanitise_segment "khaal-pvc-cms";
        node = "id1";
        at = leap_day;
        name = artifact_name "khaal-pvc-cms" "id1" leap_day;
      }))
    × (archive_node_id (artifact_name "khaal-pvc-cms" "id1" leap_day) ≡ "id1")
parse_artifact-artifact_name_example =
    parse_artifact-artifact_name "khaal-pvc-cms" "id1" leap_day is_leap_day is_node
