-- ===== src/Stacks/Placement/Nodes.antt =====
-- The storage nodes that a setting names, and the one that round robin picks.
use poor_man_cluster.Common.{
  ℕ, zero, suc, ◌<◌, String, ◌==◌, eq_iff, eq_refl, ◌≡◌, refl, ◌≢◌, Bool, true, false, not, ◌&&◌,
  ◌||◌, List, [], ◌∷◌, map, arith, length, contains, if◌then◌else◌, ◌∙◌, contains-if,
  contains_congr,
}
use poor_man_cluster.Common.Text.{trim_space, split}
use poor_man_cluster.Stacks.Placement.{at, round_robin_node, collect_nodes, parse_storage_nodes}

at-contains : (xs : List String) (i : ℕ) → i < length xs → contains xs (at xs i) ≡ true
at-contains [] i h = elim h [ ]
at-contains (x ∷ xs) zero h = rw eq_refl
at-contains (x ∷ xs) (suc i) h = ground (arith, at-contains xs i (omega arith))

-- Round robin picks one of the storage nodes, whenever there is one.
pub contains-round_robin_node :
    (app_name : String) (nodes : List String)
    → nodes ≢ []
    → contains nodes (round_robin_node app_name nodes) ≡ true
unfolding round_robin_node
contains-round_robin_node app_name [] h = absurd (h refl)
contains-round_robin_node app_name (n ∷ ns) h = at-contains (n ∷ ns) _ (omega arith)

-- No text of the list stands in it twice.
abbrev pub Distinct : List String → Type 0
Distinct [] = Unit
Distinct (x ∷ xs) = (contains xs x ≡ false) × Distinct xs

drop_true : (a b : Bool) → (a && (b && true)) ≡ (a && b)
drop_true a b = ground arith

-- One part of the setting, its node trimmed: it is taken if it is new and not empty.
take_part :
    (node n : String) (rest seen_n seen_node : Bool)
    → (node ≡ n → seen_node ≡ seen_n)
    → (if node == "" || seen_node
        then rest && (not (n == "") && not seen_n)
        else (node == n || rest && (not (n == "") && not (node == n || seen_n))))
      ≡ ((node == n || rest) && (not (n == "") && not seen_n))
take_part node n rest seen_n seen_node h =
    ground (arith, eq_iff node n, eq_iff n "", eq_iff node "", eq_refl n)

pub contains-collect_nodes :
    (seen parts : List String) (n : String)
    → contains (collect_nodes seen parts) n
      ≡ (contains (map trim_space parts) n && (not (n == "") && not (contains seen n)))
unfolding collect_nodes
contains-collect_nodes seen [] n = refl
contains-collect_nodes seen (p ∷ ps) n =
    let node = trim_space p in
    rw
      (
        contains-if (node == "" || contains seen node),
        contains-collect_nodes seen ps n,
        contains-collect_nodes (node ∷ seen) ps n,
      )
      (take_part node n (contains (map trim_space ps) n) (contains seen n) (contains seen node)
        (contains_congr seen node n))

Distinct-if :
    (b : Bool) (xs ys : List String) → Distinct xs → Distinct ys → Distinct (if b then xs else ys)
Distinct-if true xs ys p q = p
Distinct-if false xs ys p q = q

seen_not_taken :
    (seen parts : List String) (n : String)
    → contains seen n ≡ true
    → contains (collect_nodes seen parts) n ≡ false
seen_not_taken seen parts n h = rw (contains-collect_nodes seen parts n, h) (ground arith)

Distinct-collect_nodes : (seen parts : List String) → Distinct (collect_nodes seen parts)
unfolding collect_nodes
Distinct-collect_nodes seen [] = tt
Distinct-collect_nodes seen (p ∷ ps) =
    let node = trim_space p in
    Distinct-if (node == "" || contains seen node) _ _ (Distinct-collect_nodes seen ps)
      (seen_not_taken (node ∷ seen) ps node (rw eq_refl), Distinct-collect_nodes (node ∷ seen) ps)

-- The storage nodes of a setting are the distinct non-empty texts that are left when the setting is
-- split at its commas and every part is trimmed.
pub parse_storage_nodes_lem :
    (raw : String)
    → Distinct (parse_storage_nodes raw)
      × ((n : String)
          → contains (parse_storage_nodes raw) n
            ≡ (contains (map trim_space (split b',' raw)) n && not (n == "")))
unfolding parse_storage_nodes
parse_storage_nodes_lem raw = (
  Distinct-collect_nodes [] (split b',' raw),
  λ n.
      contains-collect_nodes [] (split b',' raw) n
      ∙ drop_true (contains (map trim_space (split b',' raw)) n) (not (n == "")),
)
