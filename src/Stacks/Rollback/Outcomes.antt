-- ===== src/Stacks/Rollback/Outcomes.antt =====
-- What a rollback leaves.
use poor_man_cluster.Common.{ℕ, String, ◌≡◌, refl, ◌∙◌, false, none, some, length, ◌<◌}
use poor_man_cluster.Common.Errors.{Error, step_error, ok, err}
use poor_man_cluster.Store.Stacks.{
  StackRevision, Tables, revision, has_revision, next_free_revision, record_deploy,
  set_revision_rendered_hash,
}
use poor_man_cluster.Store.Stacks.Stamps.{set_revision_rendered_hash-revision}
use poor_man_cluster.Store.Stacks.Deploys.{after, record_deploy_lem, record_deploy_reads}
use poor_man_cluster.Store.Stacks.FreeRevision.{next_free_revision_total}
use poor_man_cluster.Workflow.{run}
use poor_man_cluster.Stacks.Rollback.{
  Outside, load, retranslate, store, redeploy, rolled_back, rollback,
}

module _ (o : Outside) (name : String) (source : ℕ) (t : Tables) {row : StackRevision}
    {rendered : String} {number : ℕ} {t1 : Tables} (h : revision name source t ≡ ok row)
    (k : o.translate row ≡ ok rendered) (n : next_free_revision name o.now t ≡ ok number)
    (d : record_deploy (rolled_back o name source row rendered number) "" o.now t ≡ ok t1) where
  rollback-applied :
      {t2 : Tables}
      → o.apply rendered number ≡ none
      → set_revision_rendered_hash name number (o.config_hash rendered) t1 ≡ ok t2
      → rollback o name source t ≡ (ok number, t2)
  unfolding rollback run load retranslate store redeploy
  rollback-applied a s = rw (h, k, n, d, a, s) refl

  rollback-refused :
      (e : Error)
      → o.apply rendered number ≡ some e
      → rollback o name source t ≡ (err (step_error "Re-deploying stack from source" e), t1)
  unfolding rollback run load retranslate store redeploy
  rollback-refused e a = rw (h, k, n, d, a) refl

-- While fewer than ten thousand revisions are stored, a rollback to a revision that can be read and
-- still renders takes a number under which the stack has no revision. If the apply passes it
-- answers that number, and the revision stored under it has the old source, the fresh rendering and
-- its hash; if the apply fails it answers the apply's error, and the revision is stored without a
-- hash.
pub rollback-cases :
    (o : Outside) (name : String) (source : ℕ) (t : Tables) {row : StackRevision}
    {rendered : String}
    → revision name source t ≡ ok row
    → o.translate row ≡ ok rendered
    → length t.revisions < 10000
    → (number : ℕ) × (has_revision name number t.revisions ≡ false)
      × (o.apply rendered number ≡ none
          → ((rollback o name source t).0 ≡ ok number)
            × (revision name number (rollback o name source t).1
                ≡ ok (record (rolled_back o name source row rendered number) {
                  rendered_hash = o.config_hash rendered;
                })))
      × ((e : Error)
          → o.apply rendered number ≡ some e
          → ((rollback o name source t).0 ≡ err (step_error "Re-deploying stack from source" e))
            × (revision name number (rollback o name source t).1
                ≡ ok (rolled_back o name source row rendered number)))
rollback-cases o name source t {row} {rendered} h k small =
    let (number, n, from, free, least) = next_free_revision_total name o.now t small in
    let rev = rolled_back o name source row rendered number in
    let t1 = after rev "" o.now t in
    let d : record_deploy rev "" o.now t ≡ ok t1 =
      record_deploy_lem rev "" o.now t ∙ rw free refl in
    let (stored, points, others) = record_deploy_reads rev "" o.now t t1 name number d in
    let (t2, s, stamped) =
      set_revision_rendered_hash-revision name number (o.config_hash rendered) t1 stored in
    (
      number,
      free,
      λ a. rw (rollback-applied o name source t h k n d a s) (refl, stamped),
      λ e a. rw (rollback-refused o name source t h k n d e a) (refl, stored),
    )
