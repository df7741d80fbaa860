-- ===== src/Backups/Drain/Undone.antt =====
-- What a drain leaves: everything paused, or everything as it was.
use poor_man_cluster.Common.{
  subst, ℕ, String, ◌==◌, eq_refl, ◌≡◌, refl, ap, ◌∙◌, Bool, true, false, ◌||◌, Option, none, some,
  List, [], ◌∷◌, ◌++◌, map, arith, All, Map, insert, lookup, lookup-insert,
}
use poor_man_cluster.Common.Errors.{Error, ok}
use poor_man_cluster.Backups.Drain.{
  Service, DrainReport, Scaling, Drained, Round, to_pause, counts_of, undo, wait, scale_down, drain,
  waited, scaled, of_paused, left_running,
}

unfoldable pub is_named : String → List Service → Bool
is_named name [] = false
is_named name (s ∷ svcs) = s.name == name || is_named name svcs

-- Every service has its own name.
abbrev pub DistinctNames : List Service → Type 0
DistinctNames [] = Unit
DistinctNames (s ∷ svcs) = (is_named s.name svcs ≡ false) × DistinctNames svcs

lookup-counts_of :
    (name : String) (m : Map ℕ) (paused : List Service)
    → is_named name paused ≡ false
    → lookup name (counts_of m paused) ≡ lookup name m
unfolding counts_of is_named
lookup-counts_of name m [] h = refl
lookup-counts_of name m (s ∷ paused) h =
    let other : (s.name == name) ≡ false = ground arith in
    lookup-counts_of name (insert s.name s.desired m) paused (ground arith)
    ∙ lookup-insert s.name name s.desired m
    ∙ rw other refl

abbrev IsCounted : Map ℕ → Service → Type 0
IsCounted m s = lookup s.name m ≡ some s.desired

counts_of-IsCounted :
    (m : Map ℕ) (paused : List Service)
    → DistinctNames paused
    → All (IsCounted (counts_of m paused)) paused
unfolding counts_of
counts_of-IsCounted m [] h = tt
counts_of-IsCounted m (s ∷ paused) (new, h) = (
  lookup-counts_of s.name (insert s.name s.desired m) paused new
      ∙ lookup-insert s.name s.name s.desired m
      ∙ rw (eq_refl s.name) refl,
  counts_of-IsCounted (insert s.name s.desired m) paused h,
)

abbrev pub to_desired : Service → Scaling
to_desired s = (s.service_id, s.desired)

abbrev pub to_zero : Service → Scaling
to_zero s = (s.service_id, 0)

undo_lem :
    (m : Map ℕ) (paused : List Service)
    → All (IsCounted m) paused
    → undo m paused ≡ map to_desired paused
unfolding undo
undo_lem m [] all = refl
undo_lem m (s ∷ paused) (e, all) = rw (e, undo_lem m paused all) refl

scale_down_passed :
    (fails : String → Option Error) (paused : List Service)
    → (scale_down fails paused).1 ≡ none
    → (scale_down fails paused).0 ≡ map to_zero paused
unfolding scale_down
scale_down_passed fails [] h = refl
scale_down_passed fails (s ∷ paused) h = ground (arith, scale_down_passed fails paused)

-- A drain that ended so over some paused services.
abbrev pub AllOrNothing : List Service → Drained → Type 0
AllOrNothing paused d =
    (d.error ≡ none → (d.scalings ≡ map to_zero paused) × (d.on_undo ≡ map to_desired paused))
    × ((e : Error)
        → d.error ≡ some e
        → (calls : List Scaling) × (d.scalings ≡ calls ++ map to_desired paused))

-- How a drain ends that has paused all, or that has put all back.
AllOrNothing-drained :
    (rep : DrainReport) (paused : List Service) (calls : List Scaling)
    → undo rep.paused paused ≡ map to_desired paused
    → calls ≡ map to_zero paused
    → AllOrNothing paused
        (record { scalings = calls; report = rep; on_undo = undo rep.paused paused; error = none })
AllOrNothing-drained rep paused calls u c = (λ h. (c, u), λ e h. absurd (ground arith))

AllOrNothing-undone :
    (rep : DrainReport) (paused : List Service) (calls : List Scaling) (e : Error)
    → undo rep.paused paused ≡ map to_desired paused
    → AllOrNothing paused (record {
      scalings = calls ++ undo rep.paused paused;
      report = rep;
      on_undo = [];
      error = some e;
    })
AllOrNothing-undone rep paused calls e u =
    (λ h. absurd (ground arith), λ e' h. (calls, ap (λ (x : List Scaling). calls ++ x) u))

some_eq : (a d : Drained) → some a ≡ some d → a ≡ d
some_eq a d h = ground arith

module _ (fails : String → Option Error) (rounds : List Round) where
  AllOrNothing-waited :
      (rep : DrainReport) (paused : List Service) (d : Drained) (calls : List Scaling)
      → undo rep.paused paused ≡ map to_desired paused
      → calls ≡ map to_zero paused
      → (answer : Option (Option Error)) → waited fails rounds rep paused calls answer ≡ some d
      → AllOrNothing paused d
  AllOrNothing-waited rep paused d calls u c none h = absurd (ground arith)
  AllOrNothing-waited rep paused d calls u c (some none) h =
      subst (AllOrNothing paused) (some_eq _ d h) (AllOrNothing-drained rep paused calls u c)
  AllOrNothing-waited rep paused d calls u c (some (some e)) h =
      subst (AllOrNothing paused) (some_eq _ d h) (AllOrNothing-undone rep paused calls e u)

  AllOrNothing-scaled :
      (rep : DrainReport) (paused : List Service) (d : Drained)
      → undo rep.paused paused ≡ map to_desired paused
      → (down : List Scaling × Option Error) → (down.1 ≡ none → down.0 ≡ map to_zero paused)
      → scaled fails rounds rep paused down ≡ some d
      → AllOrNothing paused d
  AllOrNothing-scaled rep paused d u (calls, none) c h =
      AllOrNothing-waited rep paused d calls u (c refl) (wait rep.stack rep.paused rounds) h
  AllOrNothing-scaled rep paused d u (calls, some e) c h =
      subst (AllOrNothing paused) (some_eq _ d h) (AllOrNothing-undone rep paused calls e u)

  AllOrNothing-of_paused :
      (rep : DrainReport) (paused : List Service) (d : Drained)
      → undo rep.paused paused ≡ map to_desired paused
      → of_paused fails rounds rep paused ≡ some d
      → AllOrNothing paused d
  unfolding undo
  AllOrNothing-of_paused rep [] d u h =
      subst (AllOrNothing []) (some_eq _ d h) (AllOrNothing-drained rep [] [] u refl)
  AllOrNothing-of_paused rep (s ∷ paused) d u h =
      AllOrNothing-scaled rep (s ∷ paused) d u (scale_down fails (s ∷ paused))
        (scale_down_passed fails (s ∷ paused)) h

  -- Of a named stack, with a scaler at hand and the services listed, and where those that a drain
  -- pauses have each its own name: a drain whose wait ends and that returns no error has asked for
  -- each of them to be scaled to zero, and its undo asks for each to be scaled back to the count
  -- that it had; one that returns an error has asked for all of them to be scaled back at the end.
  pub drain-AllOrNothing :
      (stack : String) (svcs : List Service) (d : Drained)
      → DistinctNames (to_pause stack svcs)
      → (stack == "") ≡ false
      → drain fails rounds true stack (ok svcs) ≡ some d
      → AllOrNothing (to_pause stack svcs) d
  unfolding drain
  drain-AllOrNothing stack svcs d distinct named h =
      let paused = to_pause stack svcs in
      let rep : DrainReport = record {
        stack = stack;
        paused = counts_of [] paused;
        skipped = left_running stack svcs;
      } in
      let u = undo_lem (counts_of [] paused) paused (counts_of-IsCounted [] paused distinct) in
      AllOrNothing-of_paused rep paused d u (rw named at h)
