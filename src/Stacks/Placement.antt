-- ===== src/Stacks/Placement.antt =====
-- internal/stacks/placement.go: where a stateful service's data lives, and so where it must run.
-- The callbacks `StackPin` and `SetStackPin` read and write a state `St`; `none` is a nil callback.
pub mod Wiring
pub mod Nodes
pub mod Pins
pub mod Sticky
use poor_man_cluster.Common.{
  ℕ, zero, suc, ◌+◌, ◌*◌, ◌%◌, ◌^◌, String, ◌==◌, Bool, true, false, not, ◌&&◌, ◌||◌, Option, none,
  some, List, [], ◌∷◌, ◌++◌, if◌then◌else◌, length, get_elem?, contains, map,
}
use poor_man_cluster.Common.Errors.{Error, Result, ok, err, ◌>>=◌, wrap}
use poor_man_cluster.Common.Text.{trim_space, split, bytes}
use poor_man_cluster.Manifest.Ir.{IrService, Ir}
use Prim.Native.Nat.{bit_xor}

-- `PinResolver`, less its mutex.
pub record PinResolver {ℓ} (St : Type ℓ) : Type ℓ where
  pub storage_nodes : List String
  pub stack_pin : Option (St → String → Result String)
  pub set_stack_pin : Option (St → String → String → Option Error × St)

-- One byte of FNV-1a over 32 bits, as `hash/fnv` computes it.
abbrev fnv_step : ℕ → ℕ → ℕ
fnv_step h b = bit_xor h b * 16_777_619 % 2 ^ 32

unfoldable pub fnv_from : ℕ → List ℕ → ℕ
fnv_from h [] = h
fnv_from h (b ∷ bs) = fnv_from (fnv_step h b) bs

-- `fnv.New32a()`, `Write`, `Sum32`
unfoldable pub fnv32a : List ℕ → ℕ
unfolding fnv_from
fnv32a bs = fnv_from 2_166_136_261 bs

-- An index out of range would panic; `round_robin_node` takes it modulo the length.
abbrev at : List String → ℕ → String
at xs i = elim (get_elem? xs i) [ none ↦ "" | some x ↦ x ]

-- `roundRobinNode`
unfoldable pub round_robin_node : String → List String → String
unfolding fnv32a
round_robin_node app_name [] = ""
round_robin_node app_name (n ∷ ns) = at (n ∷ ns) (fnv32a (bytes app_name) % length (n ∷ ns))

abbrev pub is_empty {ℓ} : {A : Type ℓ} → List A → Bool
is_empty [] = true
is_empty (x ∷ xs) = false

-- `(*PinResolver).resolve`, by the resolver's storage nodes.
unfoldable pub resolve : List String → String → String → String
resolve nodes app_name stack_pin =
    if not (stack_pin == "")
    then stack_pin
    else if is_empty nodes
    then ""
    else round_robin_node app_name nodes

-- The loop's body in `ResolvePlacement`.
unfoldable pub place : List String → String → String → IrService → IrService
place nodes app_name pin s =
    if not (s.placement == "") || is_empty s.volumes
    then s
    else record s { placement = resolve nodes app_name pin }

-- `holdsVolume`
unfoldable pub holds_volume : List IrService → Bool
holds_volume [] = false
holds_volume (s ∷ ss) = not (is_empty s.volumes) || holds_volume ss

-- The loop of `ParseStorageNodes`.
unfoldable pub collect_nodes : List String → List String → List String
collect_nodes seen [] = []
collect_nodes seen (part ∷ parts) =
    let node = trim_space part in
    let skipped = collect_nodes seen parts in
    let taken = node ∷ collect_nodes (node ∷ seen) parts in
    if node == "" || contains seen node then skipped else taken

-- `ParseStorageNodes`
unfoldable pub parse_storage_nodes : String → List String
unfolding collect_nodes
parse_storage_nodes raw = collect_nodes [] (split b',' raw)

abbrev pub is_role : String → Bool
is_role node = node == "manager" || node == "worker"

-- The node of one service in the loop of `StoragePins`: "" if it holds no volume.
unfoldable pub pin_of : List String → String → String → IrService → String
pin_of nodes app_name pin s =
    if is_empty s.volumes
    then ""
    else if s.placement == ""
    then resolve nodes app_name pin
    else s.placement

abbrev pub add_node : List String → String → List String
add_node out node =
    if node == "" || is_role node || contains out node then out else out ++ node ∷ []

-- The loop of `StoragePins`; the list `out` holds the keys of the map `seen`.
unfoldable pub pins_from :
    List String → String → String → List String → List IrService → List String
unfolding pin_of
pins_from nodes app_name pin out [] = out
pins_from nodes app_name pin out (s ∷ ss) =
    pins_from nodes app_name pin (add_node out (pin_of nodes app_name pin s)) ss

module _ {ℓ} {St : Type ℓ} where
  abbrev call_pin : Option (St → String → Result String) → St → String → Result String
  call_pin none st app_name = ok ""
  call_pin (some f) st app_name = f st app_name

  -- `(*PinResolver).stackPin`
  unfoldable pub stack_pin : PinResolver St → St → String → Result String
  stack_pin r st app_name = call_pin r.stack_pin st app_name

  -- `ResolvePlacement`; a nil resolver changes nothing.
  unfoldable pub resolve_placement : Option (PinResolver St) → St → String → Ir → Result Ir
  unfolding stack_pin place
  resolve_placement none st app_name ir = ok ir
  resolve_placement (some r) st app_name ir = do
    pin ← wrap "resolve pin" (stack_pin r st app_name)
    ok (record ir { services = map (place r.storage_nodes app_name pin) ir.services })

  -- `StoragePins`
  unfoldable pub storage_pins : Option (PinResolver St) → St → String → Ir → Result (List String)
  unfolding stack_pin pins_from
  storage_pins none st app_name ir = ok []
  storage_pins (some r) st app_name ir = do
    pin ← wrap "resolve pin" (stack_pin r st app_name)
    ok (pins_from r.storage_nodes app_name pin [] ir.services)

  -- The write at the end of `PersistAssignment`, once the pin that stands is known.
  abbrev record_pin :
      PinResolver St
      → (St → String → String → Option Error × St)
      → String
      → Ir
      → St
      → Result String
      → Option Error × St
  record_pin r set app_name ir st (err e) = (some e, st)
  record_pin r set app_name ir st (ok existing) =
      if not (existing == "")
      then (none, st)
      else if not (holds_volume ir.services)
      then (none, st)
      else if resolve r.storage_nodes app_name "" == ""
      then (none, st)
      else set st app_name (resolve r.storage_nodes app_name "")

  abbrev persist_with :
      PinResolver St
      → Option (St → String → String → Option Error × St)
      → String
      → Ir
      → St
      → Result String
      → Option Error × St
  persist_with r none app_name ir st existing = (none, st)
  persist_with r (some set) app_name ir st existing =
      if is_empty r.storage_nodes then (none, st) else record_pin r set app_name ir st existing

  -- `PersistAssignment`
  unfoldable pub persist_assignment : PinResolver St → St → String → Ir → Option Error × St
  unfolding stack_pin
  persist_assignment r st app_name ir =
      persist_with r r.set_stack_pin app_name ir st (stack_pin r st app_name)

  abbrev and_persist : PinResolver St → St → String → Result Ir → Result Ir × St
  and_persist r st app_name (err e) = (err e, st)
  and_persist r st app_name (ok ir) =
      let (failure, st') = persist_assignment r st app_name ir in
      (elim failure [ none ↦ ok ir | some e ↦ err e ], st')

  -- `resolvePlacements`: the placed IR or an error, and the state that is left.
  unfoldable pub resolve_placements : Option (PinResolver St) → St → String → Ir → Result Ir × St
  unfolding resolve_placement persist_assignment
  resolve_placements none st app_name ir = (ok ir, st)
  resolve_placements (some r) st app_name ir =
      and_persist r st app_name (resolve_placement (some r) st app_name ir)
