-- ===== src/Stacks/Sync/Unchanged.antt =====
-- When a sync has nothing to apply.
use poor_man_cluster.Common.{
  ℕ, String, ◌==◌, eq_iff, ◌≡◌, ap, ◌∙◌, subst, ◌≤◌, true, false, none, some, List, [], ◌∷◌, arith,
  ltb, All, Bool-cases, Option-cases, inl, inr,
}
use poor_man_cluster.Common.Errors.{ok, Result-cases}
use poor_man_cluster.Store.Stacks.{StackRevision, Tables}
use poor_man_cluster.Stacks.Drift.{in_sync}
use poor_man_cluster.Stacks.Sync.{latest_revision, Outside, unchanged, has_drifted, sync}

-- No revision of the stack has a higher number.
abbrev pub NoneLater : String → ℕ → List StackRevision → Type 0
NoneLater name n rs = All (λ (r : StackRevision). (r.stack_name == name) ≡ true → r.revision ≤ n) rs

pub NoneLater-le :
    (name : String) (m n : ℕ) (rs : List StackRevision)
    → m ≤ n
    → NoneLater name m rs
    → NoneLater name n rs
NoneLater-le name m n [] h all = tt
NoneLater-le name m n (r ∷ rs) h (first, all) =
    (λ same. omega (arith, first same), NoneLater-le name m n rs h all)

-- No revision of the stack at all.
latest_revision-none :
    (name : String) (rs : List StackRevision) (n : ℕ)
    → latest_revision name rs ≡ none
    → NoneLater name n rs
unfolding latest_revision
latest_revision-none name [] n h = tt
latest_revision-none name (r ∷ rs) n h = elim (Bool-cases (r.stack_name == name)) [
  | inl own ↦ absurd (ground arith)
  | inr other ↦ (λ same. absurd (cc), latest_revision-none name rs n (ground arith))
]

pub latest_revision-NoneLater :
    (name : String) (rs : List StackRevision) (l : StackRevision)
    → latest_revision name rs ≡ some l
    → (l.stack_name ≡ name) × NoneLater name l.revision rs
unfolding latest_revision
latest_revision-NoneLater name [] l h = absurd (ground arith)
latest_revision-NoneLater name (r ∷ rs) l h = elim (Bool-cases (r.stack_name == name)) [
  | inr other ↦
      let (named, all) = latest_revision-NoneLater name rs l (ground arith) in
      (named, (λ same. absurd (cc), all))
  | inl own ↦
      let named : r.stack_name ≡ name = (eq_iff r.stack_name name).0 own in
      elim (Option-cases (latest_revision name rs)) [
        | inl alone ↦
            let e : r ≡ l = ground arith in
            subst
              (λ (x : StackRevision). (x.stack_name ≡ name) × NoneLater name x.revision (r ∷ rs)) e
              (named, (λ same. omega arith, latest_revision-none name rs r.revision alone))
        | inr (s, found) ↦
            let (named_s, all) = latest_revision-NoneLater name rs s found in
            elim (Bool-cases (ltb r.revision s.revision)) [
              | inl less ↦
                  let e : s ≡ l = ground arith in
                  let below : r.revision ≤ s.revision = ground arith in
                  subst
                    (λ (x : StackRevision).
                      (x.stack_name ≡ name) × NoneLater name x.revision (r ∷ rs))
                    e (named_s, (λ same. below, all))
              | inr not_less ↦
                  let e : r ≡ l = ground arith in
                  let below : s.revision ≤ r.revision = ground arith in
                  subst
                    (λ (x : StackRevision).
                      (x.stack_name ≡ name) × NoneLater name x.revision (r ∷ rs))
                    e
                    (
                      named,
                      (λ same. omega arith, NoneLater-le name s.revision r.revision rs below all),
                    )
            ]
      ]
]

-- A sync finds nothing to apply only if the revision of the stack with the highest number has been
-- applied, which is when it has a hash, if its source still renders to a text of that hash, and if
-- the live check of that rendering finds no drift.
pub sync-unchanged :
    (o : Outside) (name : String) (t : Tables) (number : ℕ) (rendered : String)
    → sync o name t ≡ unchanged number rendered
    → (l : StackRevision) × (l.stack_name ≡ name)
      × (l.revision ≡ number)
      × NoneLater name number t.revisions
      × ((l.rendered_hash == "") ≡ false)
      × (o.translate l ≡ ok rendered)
      × (o.config_hash rendered ≡ l.rendered_hash)
      × (has_drifted (in_sync o.services name (o.compose rendered)) ≡ false)
unfolding sync
sync-unchanged o name t number rendered h = elim (Option-cases o.list_fails) [
  | inr (e, fails) ↦ absurd (ground arith)
  | inl lists ↦ elim (Option-cases (latest_revision name t.revisions)) [
    | inl none_there ↦ absurd (ground arith)
    | inr (l, found) ↦ elim (Result-cases (o.translate l)) [
      | inr (e, broken) ↦ absurd (ground arith)
      | inl (y, made) ↦
          let (named, all) = latest_revision-NoneLater name t.revisions l found in
          let same : l.revision ≡ number = ground arith in
          let text : y ≡ rendered = ground arith in
          (
            l,
            named,
            same,
            subst (λ n. NoneLater name n t.revisions) same all,
            ground arith,
            made ∙ ap (λ (z : String). ok z) text,
            (eq_iff (o.config_hash rendered) l.rendered_hash).0 (ground arith),
            ground arith,
          )
    ]
  ]
]
