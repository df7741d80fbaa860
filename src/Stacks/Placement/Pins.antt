-- ===== src/Stacks/Placement/Pins.antt =====
-- The nodes that the reconcile loop watches are those that the stack is placed on.
use poor_man_cluster.Common.{
  String, ◌==◌, eq_iff, ◌≡◌, ◌∙◌, Bool, false, not, ◌&&◌, ◌||◌, some, List, [], ◌∷◌, map, arith,
  contains, if◌then◌else◌, contains-if, contains_congr, contains-append,
}
use poor_man_cluster.Common.Errors.{Result, ok, err, ◌>>=◌, wrap}
use poor_man_cluster.Manifest.Ir.{IrService, Ir}
use poor_man_cluster.Stacks.Placement.{
  PinResolver, is_empty, is_role, place, pin_of, pins_from, add_node, stack_pin, resolve_placement,
  storage_pins,
}

-- Whether a service that holds a volume is placed on the node.
pub runs_on : String → List IrService → Bool
runs_on n [] = false
runs_on n (s ∷ ss) = not (is_empty s.volumes) && s.placement == n || runs_on n ss

-- Whether a placement names a host.
abbrev pub is_host : String → Bool
is_host n = not (n == "") && not (is_role n)

pin_of-place :
    (nodes : List String) (app_name pin n : String) (s : IrService)
    → let t = place nodes app_name pin s in
      ((not (is_empty t.volumes) && (t.placement == n)) && is_host n)
      ≡ ((pin_of nodes app_name pin s == n) && is_host n)
unfolding place pin_of
pin_of-place nodes app_name pin n s =
    ground (arith, eq_iff s.placement n, eq_iff n "", eq_iff "" n, eq_iff s.placement "")

-- A host joins the list unless it is there.
host_joins :
    (node n : String) (at_n at_node : Bool)
    → (node ≡ n → at_node ≡ at_n)
    → (if node == "" || is_role node || at_node then at_n else (at_n || (node == n || false)))
      ≡ (at_n || node == n && is_host n)
host_joins node n at_n at_node h = ground (
  arith,
  eq_iff node n,
  eq_iff node "",
  eq_iff n "",
  eq_iff node "manager",
  eq_iff n "manager",
  eq_iff node "worker",
  eq_iff n "worker",
)

contains-add_node :
    (node n : String) (out : List String)
    → contains (add_node out node) n ≡ (contains out n || node == n && is_host n)
contains-add_node node n out =
    rw (contains-if (node == "" || is_role node || contains out node), contains-append)
      (host_joins node n (contains out n) (contains out node) (contains_congr out node n))

spread :
    (a p v q r h : Bool)
    → ((v && q) && h) ≡ (p && h)
    → ((a || (p && h)) || (r && h)) ≡ (a || (((v && q) || r) && h))
spread a p v q r h e = ground arith

module _ (nodes : List String) (app_name pin : String) where
  contains-pins_from :
      (out : List String) (ss : List IrService) (n : String)
      → contains (pins_from nodes app_name pin out ss) n
        ≡ (contains out n || runs_on n (map (place nodes app_name pin) ss) && is_host n)
  unfolding pins_from runs_on
  contains-pins_from out [] n = ground arith
  contains-pins_from out (s ∷ ss) n =
      contains-pins_from (add_node out (pin_of nodes app_name pin s)) ss n
      ∙ rw (contains-add_node (pin_of nodes app_name pin s) n out) (
          spread (contains out n) _ (not (is_empty (place nodes app_name pin s).volumes))
            ((place nodes app_name pin s).placement == n) _ (is_host n)
            (pin_of-place nodes app_name pin n s))

module _ (nodes : List String) (app_name : String) where
  by_pin :
      (found : Result String) (ir ir' : Ir) (pins : List String) (n : String)
      → (wrap "resolve pin" found >>= λ pin. ok (pins_from nodes app_name pin [] ir.services))
        ≡ ok pins
      → (wrap "resolve pin" found >>= λ pin.
          ok (record ir { services = map (place nodes app_name pin) ir.services }))
        ≡ ok ir'
      → contains pins n ≡ (runs_on n ir'.services && is_host n)
  by_pin (ok pin) ir ir' pins n h k =
      ground (arith, contains-pins_from nodes app_name pin [] ir.services n)
  by_pin (err e) ir ir' pins n h k = cc

-- A node is among the storage pins of a stack exactly if it is the host that some service with a
-- volume is placed on by the placement of the same stack.
pub contains-storage_pins {ℓ} :
    {St : Type ℓ} (r : PinResolver St) (st : St) (app_name : String) (ir ir' : Ir)
    (pins : List String) (n : String)
    → storage_pins (some r) st app_name ir ≡ ok pins
    → resolve_placement (some r) st app_name ir ≡ ok ir'
    → contains pins n ≡ (runs_on n ir'.services && is_host n)
unfolding storage_pins resolve_placement
contains-storage_pins r st app_name ir ir' pins n h k =
    by_pin r.storage_nodes app_name (stack_pin r st app_name) ir ir' pins n h k
