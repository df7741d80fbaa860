-- ===== src/Store/Stacks/Notes.antt =====
-- What recording an error, or a deploy, leaves alone.
use poor_man_cluster.Common.{
  ℕ, String, ◌==◌, ◌≡◌, refl, false, List, ◌∷◌, arith, ◌⊎◌, ◌∙◌, Bool-cases, Option-cases, inl, inr,
  take,
}
use poor_man_cluster.Common.Errors.{ok}
use poor_man_cluster.Store.Stacks.{
  Stack, StackRevision, StackErrorEntry, history, parse_stack_errors, Tables, find_stack,
  update_stack, record_stack_error, record_deploy, stack, revision,
}
use poor_man_cluster.Store.Stacks.Invariant.{WellFormed}
use poor_man_cluster.Store.Stacks.ErrorHistory.{
  find_stack-update_stack, find_stack-has_stack, entry_of,
}
use poor_man_cluster.Store.Stacks.Deploys.{record_deploy_reads}
use poor_man_cluster.Store.Stacks.Updates.{ReadsSame, update_stack-WellFormed}

-- The row that a recorded error leaves.
abbrev noted_row : ℕ → String → ℕ → List StackErrorEntry → Stack → Stack
noted_row number message now old r = record r {
  last_error = history (take 20 (entry_of number message now ∷ old));
  updated_at = now;
}

module _ (name : String) (number : ℕ) (message : String) (now : ℕ) (t t' : Tables)
    (h : record_stack_error name number message now t ≡ ok t') where
  -- An empty message writes nothing, any other one writes to the stack's own row.
  record_stack_error_inv :
      (t' ≡ t)
      ⊎ ((old : List StackErrorEntry) × (t'
            ≡ record t { stacks = update_stack name (noted_row number message now old) t.stacks }))
  unfolding record_stack_error stack
  record_stack_error_inv = elim (Bool-cases (message == "")) [
    | inl silent ↦ inl (ground arith)
    | inr speaking ↦ elim (Option-cases (find_stack name t.stacks)) [
      | inl missing ↦ absurd (ground arith)
      | inr (s, there) ↦
          inr
            (parse_stack_errors s.last_error, ground (arith, find_stack-has_stack name t.stacks s))
    ]
  ]

  pub record_stack_error-revisions : t'.revisions ≡ t.revisions
  record_stack_error-revisions = elim record_stack_error_inv [
    | inl same ↦ rw same refl
    | inr (old, e) ↦ rw e refl
  ]

  -- Recording an error in well-formed tables leaves them well formed.
  pub record_stack_error-WellFormed : WellFormed t → WellFormed t'
  record_stack_error-WellFormed w = elim record_stack_error_inv [
    | inl same ↦ rw same w
    | inr (old, e) ↦ rw e (
        update_stack-WellFormed name (noted_row number message now old) (λ r. refl) (λ r. refl) t w)
  ]

  -- Recording an error leaves every other stack and its revisions as they were.
  pub record_stack_error-ReadsSame :
      (other : String) → (name == other) ≡ false → ReadsSame other t t'
  unfolding stack revision
  record_stack_error-ReadsSame other ne = elim record_stack_error_inv [
    | inl same ↦ rw same (record { same_stack = refl; same_revisions = λ n. refl })
    | inr (old, e) ↦
        let f = noted_row number message now old in
        rw e (record {
          same_stack = ground (arith, find_stack-update_stack name other f t.stacks (λ r. refl));
          same_revisions = λ n. refl;
        })
  ]

-- Recording a deploy leaves every other stack and its revisions as they were.
pub record_deploy-ReadsSame :
    (rev : StackRevision) (repo_url : String) (now : ℕ) (other : String) (t t' : Tables)
    → (rev.stack_name == other) ≡ false
    → record_deploy rev repo_url now t ≡ ok t'
    → ReadsSame other t t'
record_deploy-ReadsSame rev repo_url now other t t' ne h = record {
  same_stack =
      (let (stored, points, others) = record_deploy_reads rev repo_url now t t' other 0 h in
        (others ne).0);
  same_revisions = λ n.
      let (stored, points, others) = record_deploy_reads rev repo_url now t t' other n h in
      (others ne).1;
}

pub ReadsSame-trans :
    {other : String} {a b c : Tables}
    → ReadsSame other a b
    → ReadsSame other b c
    → ReadsSame other a c
ReadsSame-trans h k = record {
  same_stack = k.same_stack ∙ h.same_stack;
  same_revisions = λ n. k.same_revisions n ∙ h.same_revisions n;
}
