-- ===== src/Stacks/Move/Brought.antt =====
-- What brings the data to the target changes nothing else that lasts.
use poor_man_cluster.Common.{
  ℕ, String, ◌==◌, ◌≡◌, refl, sym, subst, ◌⊎◌, inl, inr, Bool, true, false, ◌&&◌, Option, none,
  some, List, ◌∷◌, arith, if◌then◌else◌, Bool-cases, Option-cases,
}
use poor_man_cluster.Common.Errors.{Error, Result, ok, err}
use poor_man_cluster.Stacks.Transit.{newest_archive_object, Object}
use poor_man_cluster.Stacks.Transit.Newest.{Answers, newest_archive_object-Answers}
use poor_man_cluster.Stacks.Move.{
  triggered, run_move_backup, backup_first, source_node, logged, by_store, archive, deliver,
  by_archive, cross_node, transit, leader_of, bring,
}
use poor_man_cluster.Stacks.Move.Acts.{
  Node, Restored, pulled, carried, unpacked, MoveState, Outside, Act, bind, create_backup,
  node_id_of, first_pin, is_only, unless,
}
use poor_man_cluster.Stacks.Placement.{is_empty}

-- The settings, the stacks and the markers are as they were.
abbrev pub Kept : MoveState → MoveState → Type 0
Kept s s' = (s'.db ≡ s.db) × (s'.tables ≡ s.tables) × (s'.markers ≡ s.markers)

-- And no restore has been begun.
abbrev pub Quiet : MoveState → MoveState → Type 0
Quiet s s' = Kept s s' × (s'.restored ≡ s.restored) × (s'.broken ≡ s.broken)

module _ {Body : Type 0} (o : Outside Body) (stack target : String) where
  -- A restore that brings the data, which lay on the first of the nodes, to the target.
  abbrev pub IsForTarget : List String → Restored → Type 0
  IsForTarget ps (pulled key node) =
      (node ≡ target)
      × ((ns : List Node) × (os : List Object) × (o.nodes ≡ some (ok ns))
          × (o.objects ≡ ok os)
          × ((node_id_of (first_pin ps) ns == "") ≡ false)
          × Answers (node_id_of (first_pin ps) ns) os (ok key))
  IsForTarget ps (carried path node) = node ≡ target
  IsForTarget ps (unpacked path) = cross_node o stack target o.nodes ≡ false

  -- No restore has passed, and at most one, to the target, was begun and has failed.
  abbrev pub Failed : List String → MoveState → MoveState → Type 0
  Failed ps s s' =
      Kept s s'
      × (s'.restored ≡ s.restored)
      × ((s'.broken ≡ s.broken) ⊎ ((x : Restored) × (s'.broken ≡ x ∷ s.broken) × IsForTarget ps x))

  abbrev pub Brought : List String → MoveState → Result (Unit {0}) × MoveState → Type 0
  Brought ps s (ok u, s') =
      Kept s s'
      × ((x : Restored) × (s'.restored ≡ x ∷ s.restored)
          × (s'.broken ≡ s.broken)
          × IsForTarget ps x)
  Brought ps s (err e, s') = Failed ps s s'

  Quiet-Failed : (ps : List String) (s s' : MoveState) → Quiet s s' → Failed ps s s'
  Quiet-Failed ps s s' (k, r, b) = (k, r, inl b)

  Brought-bind :
      {A : Type 0} (ps : List String) (s : MoveState) (a : Result A × MoveState)
      (f : A → Act (Unit {0}))
      → Quiet s a.1
      → ((x : A) → a.0 ≡ ok x → Brought ps s (f x a.1))
      → Brought ps s (bind a f)
  Brought-bind ps s (err e, s') f q h = Quiet-Failed ps s s' q
  Brought-bind ps s (ok x, s') f q h = h x refl

  Brought-logged :
      (ps : List String) (s s' : MoveState) (x : Restored) (message : String)
      (failure : Option Error)
      → IsForTarget ps x
      → Quiet s s'
      → Brought ps s (logged o stack target x message failure s')
  Brought-logged ps s s' x message none fits (k, r, b) = (k, (x, rw r refl, b, fits))
  Brought-logged ps s s' x message (some failure) fits (k, r, b) = (k, r, inr (x, rw b refl, fits))

  triggered-Quiet :
      (id : ℕ) (s : MoveState) (t : Option (List String × Option Error))
      → Quiet s (triggered o stack target id s t).1
  triggered-Quiet id s none = ((refl, refl, refl), refl, refl)
  triggered-Quiet id s (some (paths, some e)) = ((refl, refl, refl), refl, refl)
  triggered-Quiet id s (some (paths, none)) = ((refl, refl, refl), refl, refl)

  run_move_backup-Quiet : (s : MoveState) → Quiet s (run_move_backup o stack target s).1
  unfolding run_move_backup
  run_move_backup-Quiet s = elim (Option-cases o.create_fails) [
    | inl created ↦
        let (id, rows) = create_backup o.now s.backups in
        rw created (triggered-Quiet id (record s { backups = rows }) o.trigger)
    | inr (e, failed) ↦ rw failed ((refl, refl, refl), refl, refl)
  ]

  backup_first-Quiet :
      (from_s3 : Bool) (s : MoveState) → Quiet s (backup_first o stack target from_s3 s).1
  backup_first-Quiet true s = ((refl, refl, refl), refl, refl)
  backup_first-Quiet false s = go (run_move_backup o stack target s) (run_move_backup-Quiet s)
    where
      go :
          (a : Result String × MoveState)
          → Quiet s a.1
          → Quiet s (bind a (λ path s'. (ok tt, s'))).1
      go (ok path, s') q = q
      go (err e, s') q = q

  source_node-some :
      (host source : String) (n : Option (Result (List Node)))
      → cross_node o stack target n ≡ true
      → source_node o stack target n host ≡ ok source
      → (ns : List Node) × (n ≡ some (ok ns))
        × ((node_id_of host ns == "") ≡ false)
        × (source ≡ node_id_of host ns)
  unfolding source_node
  source_node-some host source none cross h = absurd (ground arith)
  source_node-some host source (some (err e)) cross h = absurd (ground arith)
  source_node-some host source (some (ok ns)) cross h =
      elim (Bool-cases (node_id_of host ns == "")) [
        | inl blank ↦ absurd (ground (arith, blank))
        | inr known ↦ (ns, refl, known, ground (arith, known))
      ]

  found_in :
      (configured : Bool) (objects : Result (List Object)) (source key : String)
      → newest_archive_object configured objects source ≡ ok key
      → (os : List Object) × (objects ≡ ok os) × Answers source os (ok key)
  unfolding newest_archive_object
  found_in false objects source key h = absurd (ground arith)
  found_in true (err e) source key h = absurd (ground arith)
  found_in true (ok os) source key h =
      (os, refl, subst (Answers source os) h (newest_archive_object-Answers os source))

  by_store-Brought :
      (from_s3 : Bool) (ps : List String) (s : MoveState)
      → cross_node o stack target o.nodes ≡ true
      → Brought ps s (by_store o stack target from_s3 ps s)
  unfolding by_store
  by_store-Brought from_s3 ps s cross =
      let q = backup_first-Quiet from_s3 s in
      let s1 = (backup_first o stack target from_s3 s).1 in
      Brought-bind ps s (backup_first o stack target from_s3 s) _ q (λ u e.
        Brought-bind ps s (source_node o stack target o.nodes (first_pin ps), s1) _ q
          (λ source at.
            Brought-bind ps s (newest_archive_object o.configured o.objects source, s1) _ q
              (λ key found.
                let (ns, nodes, known, same) =
                  source_node-some (first_pin ps) source o.nodes cross at in
                let (os, objects, answers) = found_in o.configured o.objects source key found in
                Brought-logged ps s s1 (pulled key target) "move: store transit" (o.pull key target)
                  (
                    refl,
                    (
                      ns,
                      os,
                      nodes,
                      objects,
                      known,
                      subst (λ (x : String). Answers x os (ok key)) same answers,
                    ),
                  )
                  q)))

  archive-Quiet : (from_s3 : Bool) (s : MoveState) → Quiet s (archive o stack target from_s3 s).1
  archive-Quiet true s = ((refl, refl, refl), refl, refl)
  archive-Quiet false s = run_move_backup-Quiet s

  deliver-Brought :
      (ps : List String) (s s' : MoveState) (cross : Bool) (leader path : String)
      → cross ≡ cross_node o stack target o.nodes
      → Quiet s s'
      → Brought ps s (deliver o stack target cross leader path s')
  deliver-Brought ps s s' false leader path e q =
      Brought-logged ps s s' (unpacked path) "move: restore subtree" (o.unpack path) (sym e) q
  deliver-Brought ps s s' true leader path e q = elim (Bool-cases (leader == "")) [
    | inl blank ↦ rw blank (Quiet-Failed ps s s' q)
    | inr known ↦ rw known (
        Brought-logged ps s s' (carried path target) "move: mover transit"
          (o.carry path target leader) refl q)
  ]

  by_archive-Brought :
      (from_s3 : Bool) (ps : List String) (leader : String) (s : MoveState)
      → Brought ps s
          (by_archive o stack target from_s3 (cross_node o stack target o.nodes) leader s)
  unfolding by_archive
  by_archive-Brought from_s3 ps leader s =
      let q = archive-Quiet from_s3 s in
      Brought-bind ps s (archive o stack target from_s3 s) _ q (λ path e.
        deliver-Brought ps s (archive o stack target from_s3 s).1
          (cross_node o stack target o.nodes) leader path refl q)

  transit-Brought :
      (from_s3 : Bool) (ps : List String) (leader : String) (s : MoveState)
      → Brought ps s (transit o stack target from_s3 ps leader s)
  unfolding transit
  transit-Brought from_s3 ps leader s = go (cross_node o stack target o.nodes) o.configured refl
    where
      go :
          (far shared : Bool)
          → cross_node o stack target o.nodes ≡ far
          → Brought ps s (
              (if far && shared
                  then by_store o stack target from_s3 ps
                  else by_archive o stack target from_s3 far leader)
                s)
      go true true e = by_store-Brought from_s3 ps s e
      go true false e =
          subst (λ (c : Bool). Brought ps s (by_archive o stack target from_s3 c leader s)) e
            (by_archive-Brought from_s3 ps leader s)
      go false shared e =
          subst (λ (c : Bool). Brought ps s (by_archive o stack target from_s3 c leader s)) e
            (by_archive-Brought from_s3 ps leader s)

  Brought-unless :
      (ps : List String) (s : MoveState) (test : Bool) (message : String) (f : Act (Unit {0}))
      → Brought ps s (f s)
      → Brought ps s (bind (unless test message s) (λ _. f))
  Brought-unless ps s true message f h = ((refl, refl, refl), refl, inl refl)
  Brought-unless ps s false message f h = h

  pub bring-Brought :
      (from_s3 : Bool) (ps : List String) (s : MoveState)
      → Brought ps s (bring o stack target from_s3 ps s)
  bring-Brought from_s3 ps s = Brought-unless ps s (is_empty ps) _ _ (
      Brought-unless ps s (is_only target ps) _ _ (
        Brought-bind ps s (leader_of o stack target o.nodes, s) _ ((refl, refl, refl), refl, refl)
          (λ leader e. transit-Brought from_s3 ps leader s)))
