-- ===== src/Stacks/Deploy/Retried.antt =====
-- A deploy and the next sync of the same stack.
use poor_man_cluster.Common.{
  ℕ, String, ◌==◌, eq_refl, ◌≡◌, refl, ◌∙◌, ◌≤◌, ◌<◌, false, ltb, length, none, some, List, [], ◌∷◌,
  arith, Bool-cases, Option-cases, inl, inr,
}
use poor_man_cluster.Common.Errors.{Error, step_error, ok, Result-cases}
use poor_man_cluster.Manifest.Ir.{Ir}
use poor_man_cluster.Store.Stacks.{StackRevision, Tables, record_deploy, stamp}
use poor_man_cluster.Stacks.Drift.{in_sync}
use poor_man_cluster.Stacks.Sync.{
  latest_revision, Outside as Inputs, deployed, unchanged, has_drifted, sync,
}
use poor_man_cluster.Stacks.Sync.Unchanged.{NoneLater, NoneLater-le}
use poor_man_cluster.Store.Stacks.Deploys.{after, record_deploy_lem, record_deploy_reads}
use poor_man_cluster.Store.Stacks.FreeRevision.{next_free_revision_total}
use poor_man_cluster.Store.Stacks.Stamps.{set_revision_rendered_hash-revision}
use poor_man_cluster.Store.Stacks.Updates.{set_revision_rendered_hash_inv}
use poor_man_cluster.Stacks.Deploy.{Payload, App, Outside, named, new_revision, note, deploy}
use poor_man_cluster.Stacks.Deploy.Accepted.{settled, Accepted, deploy-applied, deploy-refused}
use poor_man_cluster.Stacks.Deploy.Outcomes.{note-revisions}

latest_in :
    (name : String) (n : ℕ) (rs : List StackRevision) (l : StackRevision)
    → NoneLater name n rs
    → latest_revision name rs ≡ some l
    → l.revision ≤ n
unfolding latest_revision
latest_in name n [] l all h = absurd (ground arith)
latest_in name n (r ∷ rs) l (first, all) h = elim (Bool-cases (r.stack_name == name)) [
  | inr other ↦ latest_in name n rs l all (ground arith)
  | inl own ↦ elim (Option-cases (latest_revision name rs)) [
    | inl alone ↦ ground arith
    | inr (s, found) ↦ let below = latest_in name n rs s all found in ground arith
  ]
]

-- A revision in front with the highest number is the latest.
latest_revision-cons :
    (r : StackRevision) (rs : List StackRevision)
    → NoneLater r.stack_name r.revision rs
    → latest_revision r.stack_name (r ∷ rs) ≡ some r
unfolding latest_revision
latest_revision-cons r rs all = elim (Option-cases (latest_revision r.stack_name rs)) [
  | inl alone ↦ rw (eq_refl r.stack_name, alone) refl
  | inr (s, found) ↦
      let below = latest_in r.stack_name r.revision rs s all found in
      let e : ltb r.revision s.revision ≡ false = ground arith in
      rw (eq_refl r.stack_name, found, e) refl
]

module _ (i : Inputs) (name : String) (t : Tables) (lists : i.list_fails ≡ none) {l : StackRevision}
    (latest : latest_revision name t.revisions ≡ some l) where
  -- A latest revision without a hash is always deployed again.
  pub sync_unapplied : l.rendered_hash ≡ "" → sync i name t ≡ deployed (i.deploy l.source_yaml)
  unfolding sync
  sync_unapplied blank = elim (Result-cases (i.translate l)) [
    | inr (e, broken) ↦ rw (lists, latest, broken) refl
    | inl (y, made) ↦ rw (lists, latest, made, blank) (ground (arith, eq_refl ""))
  ]

  -- A latest revision that still renders to its hash, and whose rendering is live, is left alone.
  pub sync_applied :
      {y : String}
      → (l.rendered_hash == "") ≡ false
      → i.translate l ≡ ok y
      → i.config_hash y ≡ l.rendered_hash
      → has_drifted (in_sync i.services name (i.compose y)) ≡ false
      → sync i name t ≡ unchanged l.revision y
  unfolding sync
  sync_applied {y} stamped made same live =
      rw (lists, latest, made, same, eq_refl l.rendered_hash, stamped, live) refl

NoneLater-stamp :
    (name : String) (number : ℕ) (hash : String) (n : ℕ) (rs : List StackRevision)
    → NoneLater name n rs
    → NoneLater name n (stamp name number hash rs)
unfolding stamp
NoneLater-stamp name number hash n [] all = tt
NoneLater-stamp name number hash n (r ∷ rs) all =
    ground (arith, NoneLater-stamp name number hash n rs)

module _ {Body St : Type 0} (o : Outside Body St) (p : Payload) (t : Tables) (pins : St)
    {source : App Body} {made : String × Body} {ir : Ir} {rendered : String}
    (a : Accepted o p t pins source made ir rendered) (small : length t.revisions < 10000)
    (newest : NoneLater (named o p source).name o.now t.revisions) (i : Inputs)
    (lists : i.list_fails ≡ none) where
  -- A deploy that the apply has refused is tried again by the next sync: while no revision of the
  -- stack has a number above the clock, and fewer than ten thousand are stored, the sync deploys
  -- the manifest of the refused one, whatever it renders to.
  pub refused_retried :
      ((number : ℕ) → (e : Error) × (o.apply (settled o p source made) ir rendered number ≡ some e))
      → sync i (named o p source).name (deploy o p false t pins).1.tables
        ≡ deployed (i.deploy p.manifest)
  refused_retried down =
      let name = (named o p source).name in
      let (number, n, from, free, least) = next_free_revision_total name o.now t small in
      let rev = new_revision o p (settled o p source made) rendered number in
      let t1 = after rev p.repo_url o.now t in
      let d : record_deploy rev p.repo_url o.now t ≡ ok t1 =
        record_deploy_lem rev p.repo_url o.now t ∙ rw free refl in
      let (e, fails) = down number in
      let (answer, left) = deploy-refused o p t pins a n d e fails in
      let message = o.error_text (step_error "Deploying stack to the swarm" e) in
      let first =
        latest_revision-cons rev t.revisions
          (NoneLater-le name o.now number t.revisions from newest) in
      let latest : latest_revision name (note o p name number message t1).revisions ≡ some rev =
        rw (note-revisions o p name number message t1) first in
      rw left (sync_unapplied i name (note o p name number message t1) lists latest refl)

  -- A deploy that the apply lets pass settles: under the same bounds, if its hash is not blank, the
  -- source of the stored revision still renders to the same text of the same hash, and the live
  -- check of that text finds no drift, the next sync has nothing to apply.
  pub applied_settled :
      ((number : ℕ) → o.apply (settled o p source made) ir rendered number ≡ none)
      → (o.config_hash rendered == "") ≡ false
      → i.config_hash rendered ≡ o.config_hash rendered
      → ((number : ℕ)
          → i.translate (record (new_revision o p (settled o p source made) rendered number) {
            rendered_hash = o.config_hash rendered;
          })
            ≡ ok rendered)
      → has_drifted (in_sync i.services (named o p source).name (i.compose rendered)) ≡ false
      → (number : ℕ) × (sync i (named o p source).name (deploy o p false t pins).1.tables
          ≡ unchanged number rendered)
  unfolding stamp
  applied_settled up hashed same renders live =
      let name = (named o p source).name in
      let (number, n, from, free, least) = next_free_revision_total name o.now t small in
      let rev = new_revision o p (settled o p source made) rendered number in
      let t1 = after rev p.repo_url o.now t in
      let hash = o.config_hash rendered in
      let d : record_deploy rev p.repo_url o.now t ≡ ok t1 =
        record_deploy_lem rev p.repo_url o.now t ∙ rw free refl in
      let (stored, points, others) = record_deploy_reads rev p.repo_url o.now t t1 name number d in
      let (t2, s, stamped) = set_revision_rendered_hash-revision name number hash t1 stored in
      let (answer, left) = deploy-applied o p t pins a n d (up number) s in
      let older = NoneLater-le name o.now number t.revisions from newest in
      let row : StackRevision = record rev { rendered_hash = hash } in
      let is_row : stamp name number hash t1.revisions ≡ row ∷ stamp name number hash t.revisions =
        ground (arith, eq_refl name) in
      let latest : latest_revision name t2.revisions ≡ some row =
        rw (set_revision_rendered_hash_inv name number hash t1 t2 s, is_row)
          (latest_revision-cons row (stamp name number hash t.revisions)
            (NoneLater-stamp name number hash number t.revisions older)) in
      (number, rw left (sync_applied i name t2 lists latest hashed (renders number) same live))
