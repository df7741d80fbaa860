-- ===== src/Stacks/Deploy/Outcomes.antt =====
-- What a deploy leaves whose manifest is accepted, by what the swarm answers.
use poor_man_cluster.Common.{
  ℕ, String, ◌≡◌, refl, ◌∙◌, true, false, none, some, length, ◌<◌, inl, inr,
}
use poor_man_cluster.Common.Errors.{Error, step_error, ok, err, Result-cases}
use poor_man_cluster.Manifest.Ir.{Ir}
use poor_man_cluster.Store.Stacks.{
  Tables, revision, has_revision, record_deploy, record_stack_error,
}
use poor_man_cluster.Store.Stacks.Deploys.{after, record_deploy_lem, record_deploy_reads}
use poor_man_cluster.Store.Stacks.FreeRevision.{next_free_revision_total}
use poor_man_cluster.Store.Stacks.Notes.{record_stack_error-revisions}
use poor_man_cluster.Store.Stacks.Stamps.{set_revision_rendered_hash-revision}
use poor_man_cluster.Stacks.Deploy.{Payload, App, Outside, named, new_revision, note, deploy}
use poor_man_cluster.Stacks.Deploy.Accepted.{settled, Accepted, deploy-applied, deploy-refused}

pub note-revisions :
    {Body St : Type 0} (o : Outside Body St) (p : Payload) (name : String) (number : ℕ)
    (message : String) (t : Tables)
    → (note o p name number message t).revisions ≡ t.revisions
note-revisions o p name number message t =
    elim (Result-cases (record_stack_error name number message o.now t)) [
      | inr (e, missing) ↦ rw missing refl
      | inl (t', done) ↦ rw done (record_stack_error-revisions name number message o.now t t' done)
    ]

-- Recording an error leaves the revisions.
pub revision-note :
    {Body St : Type 0} (o : Outside Body St) (p : Payload) (name other : String) (number n : ℕ)
    (message : String) (t : Tables)
    → revision other n (note o p name number message t) ≡ revision other n t
unfolding revision
revision-note o p name other number n message t = rw (note-revisions o p name number message t) refl

-- While fewer than ten thousand revisions are stored, a deploy whose manifest is accepted takes a
-- number under which the stack has no revision. If the apply passes, the deploy answers that number
-- and the revision stored under it has the manifest, its rendering and the hash of it; if the apply
-- fails, the deploy answers the apply's error, and the revision is stored without a hash.
pub deploy-cases :
    {Body St : Type 0} (o : Outside Body St) (p : Payload) (t : Tables) (pins : St)
    {source : App Body} {made : String × Body} {ir : Ir} {rendered : String}
    (a : Accepted o p t pins source made ir rendered)
    → length t.revisions < 10000
    → (number : ℕ) × (has_revision (named o p source).name number t.revisions ≡ false)
      × (o.apply (settled o p source made) ir rendered number ≡ none
          → ((deploy o p false t pins).0
              ≡ ok (record {
                stack_name = (named o p source).name;
                revision = number;
                rendered_yaml = rendered;
                changed = true;
              }))
            × (revision (named o p source).name number (deploy o p false t pins).1.tables
                ≡ ok (record (new_revision o p (settled o p source made) rendered number) {
                  rendered_hash = o.config_hash rendered;
                })))
      × ((e : Error)
          → o.apply (settled o p source made) ir rendered number ≡ some e
          → ((deploy o p false t pins).0 ≡ err (step_error "Deploying stack to the swarm" e))
            × (revision (named o p source).name number (deploy o p false t pins).1.tables
                ≡ ok (new_revision o p (settled o p source made) rendered number)))
deploy-cases o p t pins {source} {made} {ir} {rendered} a small =
    let name = (named o p source).name in
    let (number, n, from, free, least) = next_free_revision_total name o.now t small in
    let rev = new_revision o p (settled o p source made) rendered number in
    let t1 = after rev p.repo_url o.now t in
    let d : record_deploy rev p.repo_url o.now t ≡ ok t1 =
      record_deploy_lem rev p.repo_url o.now t ∙ rw free refl in
    let (stored, points, others) = record_deploy_reads rev p.repo_url o.now t t1 name number d in
    let (t2, s, stamped) =
      set_revision_rendered_hash-revision name number (o.config_hash rendered) t1 stored in
    (
      number,
      free,
      λ up. let (answer, left) = deploy-applied o p t pins a n d up s in (answer, rw left stamped),
      λ e down.
          let (answer, left) = deploy-refused o p t pins a n d e down in
          (
            answer,
            rw left (
                revision-note o p name name number number
                  (o.error_text (step_error "Deploying stack to the swarm" e)) t1
                ∙ stored),
          ),
    )
