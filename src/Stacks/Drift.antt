-- ===== src/Stacks/Drift.antt =====
-- internal/stackdrift/stackdrift.go: whether the live swarm matches a freshly rendered compose file.
-- Reading the file's YAML is a parameter: the services it names, in an order that Go leaves open.
pub mod InSync
use poor_man_cluster.Common.{
  ℕ, String, ◌==◌, Bool, true, false, not, ◌&&◌, Option, none, some, List, [], ◌∷◌, if◌then◌else◌,
  Map, lookup, insert,
}
use poor_man_cluster.Common.Errors.{Error, Result, ok, err, wrap, ◌>>=◌}
use poor_man_cluster.Common.Text.{trim_prefix}
use Prim.Native.String.{◌++◌}

-- A service of the compose file: its name, and its label of the rendered hash, "" if it has none.
pub record ComposeService : Type 0 where
  pub name : String
  pub label : String

-- `runtime.Service`, as far as the comparison reads it.
pub record LiveService : Type 0 where
  pub name : String
  pub stack : String
  pub label : String

-- Why the stack is not in sync.
pub data Reason : Type 0 where
  absent missing drifted partial unlabelled : Reason

-- The first label of `composeServiceNames`.
unfoldable pub first_label : List ComposeService → String
first_label [] = ""
first_label (s ∷ ss) = let later = first_label ss in if s.label == "" then later else s.label

abbrev pub names_of : List ComposeService → List String
names_of [] = []
names_of (s ∷ ss) = s.name ∷ names_of ss

-- `composeServiceNames`, of what reading the YAML gives.
unfoldable pub compose_service_names : Result (List ComposeService) → Result (List String × String)
unfolding first_label
compose_service_names doc =
    wrap "parse rendered compose" doc >>= (λ ss. ok (names_of ss, first_label ss))

-- The map `live`: the labels of the stack's services.
unfoldable pub live_labels : String → Map String → List LiveService → Map String
unfolding insert
live_labels stack live [] = live
live_labels stack live (s ∷ ss) =
    live_labels stack
      (if s.stack == stack then insert (trim_prefix s.name (stack ++ "_")) s.label live else live)
      ss

abbrev pub is_none_live : Map String → Bool
is_none_live [] = true
is_none_live (entry ∷ m) = false

-- What is left to say once every wanted service was looked at: whether some carried the label, and
-- whether some did not.
abbrev counted : String → Bool → Bool → Option Reason
counted want_hash labelled unlabelled_seen =
    if labelled && unlabelled_seen
    then some partial
    else if not labelled && not (want_hash == "")
    then some unlabelled
    else none

abbrev labels_checked :
    String → String → Bool → Bool → (Bool → Bool → Option Reason) → Option Reason
labels_checked want_hash got labelled unlabelled_seen rest =
    if want_hash == ""
    then rest labelled unlabelled_seen
    else if got == ""
    then rest labelled true
    else if not (got == want_hash)
    then some drifted
    else rest true unlabelled_seen

-- The loop over the wanted services; the two counters are kept as far as they are read, which is
-- whether they are positive.
unfoldable pub compared : Map String → String → List String → Bool → Bool → Option Reason
unfolding lookup
compared live want_hash [] labelled unlabelled_seen = counted want_hash labelled unlabelled_seen
compared live want_hash (name ∷ want) labelled unlabelled_seen = elim (lookup name live) [
  | none ↦ some missing
  | some got ↦ labels_checked want_hash got labelled unlabelled_seen (compared live want_hash want)
]

-- `InSync`, behind the two calls that can fail: `none` if the stack is in sync.
unfoldable pub compare_live : String → List String → String → List LiveService → Option Reason
unfolding live_labels compared
compare_live stack want want_hash services =
    let live = live_labels stack [] services in
    if is_none_live live then some absent else compared live want_hash want false false

-- `InSync`, for what `ServiceList` answers if there is a Docker client.
unfoldable pub in_sync :
    Option (Result (List LiveService))
    → String
    → Result (List ComposeService)
    → Result (Option Reason)
unfolding compose_service_names compare_live
in_sync none stack compose = ok none
in_sync (some services) stack compose =
    compose_service_names compose >>= (λ w. services >>= (λ ss. ok (compare_live stack w.0 w.1 ss)))
