-- ===== src/Stacks/Deploy/Isolation.antt =====
-- What no deploy can break: the invariant of the tables, and the other stacks.
use poor_man_cluster.Common.{ℕ, String, ◌==◌, ◌≡◌, refl, false, Bool}
use poor_man_cluster.Common.Errors.{ok}
use poor_man_cluster.Manifest.Ir.{Ir}
use poor_man_cluster.Store.Stacks.{Tables}
use poor_man_cluster.Store.Stacks.Invariant.{WellFormed}
use poor_man_cluster.Store.Stacks.Deploys.{record_deploy-WellFormed}
use poor_man_cluster.Store.Stacks.Updates.{
  ReadsSame, set_revision_rendered_hash-ReadsSame, set_revision_rendered_hash-WellFormed,
}
use poor_man_cluster.Store.Stacks.Notes.{
  ReadsSame-trans, record_deploy-ReadsSame, record_stack_error-ReadsSame,
  record_stack_error-WellFormed,
}
use poor_man_cluster.Stacks.Deploy.{Payload, App, Outside, or_kept, deploy, apply_in_background}
use poor_man_cluster.Stacks.Deploy.Keeps.{deploy-keeps, apply_in_background-keeps}
use poor_man_cluster.Stacks.Deploy.Steps.{Kept}

WellFormed-Kept : Kept (λ (name : String). Unit) WellFormed
WellFormed-Kept = record {
  by_record = λ rev repo_url now t t' n e w. record_deploy-WellFormed rev repo_url now w e;
  by_stamp = λ name number hash t t' n e w.
      set_revision_rendered_hash-WellFormed name number hash t t' w e;
  by_error = λ name number message now t t' n e w.
      record_stack_error-WellFormed name number message now t t' e w;
}

ReadsSame-Kept :
    (other : String) (t0 : Tables)
    → Kept (λ (name : String). (name == other) ≡ false) (λ (t : Tables). ReadsSame other t0 t)
ReadsSame-Kept other t0 = record {
  by_record = λ rev repo_url now t t' n e h.
      ReadsSame-trans h (record_deploy-ReadsSame rev repo_url now other t t' n e);
  by_stamp = λ name number hash t t' n e h.
      ReadsSame-trans h (set_revision_rendered_hash-ReadsSame name number hash other t t' n e);
  by_error = λ name number message now t t' n e h.
      ReadsSame-trans h (record_stack_error-ReadsSame name number message now t t' e other n);
}

-- A deploy of well-formed tables leaves them well formed, wherever it stops; so does the goroutine
-- of a deploy in the background, whatever the tables are by then.
pub deploy-WellFormed :
    {Body St : Type 0} (o : Outside Body St) (p : Payload) (async : Bool) (t now : Tables)
    (pins : St) (app : App Body) (ir : Ir) (rendered : String) (number : ℕ)
    → WellFormed t
    → WellFormed now
    → WellFormed (deploy o p async t pins).1.tables
      × WellFormed (apply_in_background o p app ir rendered number now)
deploy-WellFormed {Body} {St} o p async t now pins app ir rendered number w v =
    let k = WellFormed-Kept in
    (
      (deploy-keeps o p (λ (name : String). Unit) WellFormed k (λ a e. tt) (λ (x : St). Unit)
          (λ name x i n e. tt) async t pins w tt).0,
      apply_in_background-keeps o p (λ (name : String). Unit) WellFormed k (λ a e. tt)
          (λ (x : St). Unit) (λ name x i n e. tt) app ir rendered number now tt v,
    )

-- A deploy changes no other stack: one whose name is neither the payload's nor, if the payload has
-- none, the manifest's reads as before with all its revisions, wherever the deploy stops; and so it
-- does behind the goroutine of a deploy under another name.
pub deploy_isolated :
    {Body St : Type 0} (o : Outside Body St) (p : Payload) (async : Bool) (t now : Tables)
    (pins : St) (app : App Body) (ir : Ir) (rendered : String) (number : ℕ) (other : String)
    → ((a : App Body) → o.parse p.manifest ≡ ok a → (or_kept p.app_name a.name == other) ≡ false)
    → (app.name == other) ≡ false
    → ReadsSame other t (deploy o p async t pins).1.tables
      × ReadsSame other now (apply_in_background o p app ir rendered number now)
deploy_isolated {Body} {St} o p async t now pins app ir rendered number other names ne =
    let N = λ (name : String). (name == other) ≡ false in
    let same : (a : Tables) → ReadsSame other a a =
      λ a. record { same_stack = refl; same_revisions = λ n. refl } in
    (
      (deploy-keeps o p N (λ (x : Tables). ReadsSame other t x) (ReadsSame-Kept other t) names
          (λ (x : St). Unit) (λ name x i n e. tt) async t pins (same t) tt).0,
      apply_in_background-keeps o p N (λ (x : Tables). ReadsSame other now x)
          (ReadsSame-Kept other now) names (λ (x : St). Unit) (λ name x i n e. tt) app ir rendered
          number now ne (same now),
    )
