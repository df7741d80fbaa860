-- ===== src/Store/Stacks/Contract/Refines.antt =====
-- The tables keep the contract.
use poor_man_cluster.Common.{
  ℕ, String, ◌==◌, eq_iff, ◌≡◌, refl, sym, ap, ◌∙◌, false, ◌&&◌, none, List, [], ◌∷◌, arith,
  if◌then◌else◌, eqb, eqb→eq, take, Bool-cases, Option-cases, inl, inr,
}
use poor_man_cluster.Common.Errors.{Result, ok, err}
use poor_man_cluster.Store.Stacks.{
  Stack, StackRevision, Tables, find_stack, has_revision, find_revision, set_revision_rendered_hash,
  record_stack_error, history, delete_stack, parse_stack_errors, stack,
}
use poor_man_cluster.Store.Stacks.Deploys.{record_deploy_lem}
use poor_man_cluster.Store.Stacks.ErrorHistory.{
  find_stack-update_stack, find_stack-has_stack, entry_of,
}
use poor_man_cluster.Store.Stacks.Notes.{record_stack_error-revisions}
use poor_man_cluster.Store.Stacks.Contract.{
  Write, deploy, stamp_hash, note_error, delete, write, writes, View, view, is_some, mapped,
  or_kept, replay, replays,
}
use poor_man_cluster.Store.Stacks.Contract.Reads.{
  has_revision-is_some, find_stack-without_stack, find_revision-without_revisions,
  find_revision-stamp_any, find_stack-stacks_after,
}

-- Two views agree on every name and number.
pub record Agree (v w : View) : Type 0 where
  pub stacks_agree : (name : String) → v.stack_of name ≡ w.stack_of name
  pub revisions_agree :
      (name : String) (number : ℕ) → v.revision_of name number ≡ w.revision_of name number

module _ (rev : StackRevision) (repo_url : String) (now : ℕ) where
  deploy-Agree :
      (t : Tables)
      → Agree (view (write (deploy rev repo_url now) t)) (replay (deploy rev repo_url now) (view t))
  unfolding find_revision
  deploy-Agree t =
      let flag = has_revision-is_some rev.stack_name rev.revision t.revisions in
      elim (Bool-cases (has_revision rev.stack_name rev.revision t.revisions)) [
        | inl old ↦
            rw (record_deploy_lem rev repo_url now t, old, sym flag ∙ old)
              (record { stacks_agree = λ name. refl; revisions_agree = λ name number. refl })
        | inr new ↦
            rw (record_deploy_lem rev repo_url now t, new, sym flag ∙ new)
              (record {
                stacks_agree = λ name. find_stack-stacks_after rev repo_url now name t.stacks;
                revisions_agree = λ name number. refl;
              })
      ]

absent-stamp :
    (name other : String) (n number : ℕ) (hash : String) (rs : List StackRevision)
    → is_some (find_revision name n rs) ≡ false
    → find_revision other number rs ≡ (
        if name == other && eqb n number
        then mapped
            (λ (r : StackRevision). record r { rendered_hash = hash })
            (find_revision other number rs)
        else find_revision other number rs)
absent-stamp name other n number hash rs gone = elim (Bool-cases (name == other && eqb n number)) [
  | inr differs ↦ rw differs refl
  | inl same ↦
      let e : name ≡ other = (eq_iff name other).0 (ground arith) in
      let e' : n ≡ number = eqb→eq n number (ground arith) in
      let none_there : find_revision other number rs ≡ none = ground (arith, gone, e, e') in
      rw (same, none_there) refl
]

stamp-Agree :
    (name : String) (n : ℕ) (hash : String) (t : Tables)
    → Agree (view (write (stamp_hash name n hash) t)) (replay (stamp_hash name n hash) (view t))
unfolding set_revision_rendered_hash
stamp-Agree name n hash t = elim (Bool-cases (has_revision name n t.revisions)) [
  | inl there ↦ rw there (record {
    stacks_agree = λ other. refl;
    revisions_agree = λ other number. find_revision-stamp_any name other n number hash t.revisions;
  })
  | inr gone ↦
      let none_there : is_some (find_revision name n t.revisions) ≡ false =
        sym (has_revision-is_some name n t.revisions) ∙ gone in
      rw gone (record {
        stacks_agree = λ other. refl;
        revisions_agree =
            λ other number. absent-stamp name other n number hash t.revisions none_there;
      })
]

note-stacks :
    (name other : String) (number : ℕ) (message : String) (now : ℕ) (t : Tables)
    → find_stack other (write (note_error name number message now) t).stacks
      ≡ (replay (note_error name number message now) (view t)).stack_of other
unfolding record_stack_error stack
note-stacks name other number message now t = elim (Bool-cases (message == "")) [
  | inl silent ↦ rw silent (ground arith)
  | inr texted ↦ elim (Option-cases (find_stack name t.stacks)) [
    | inl missing ↦ elim (Bool-cases (name == other)) [
      | inl same ↦
          let e = (eq_iff name other).0 same in
          rw (texted, missing, same) (ground (arith, e, missing))
      | inr differs ↦ rw (texted, missing, differs) refl
    ]
    | inr (s, there) ↦
        let f = λ (r : Stack). record r {
          last_error =
              history (take 20 (entry_of number message now ∷ parse_stack_errors s.last_error));
          updated_at = now;
        } in
        let found = find_stack-has_stack name t.stacks s there in
        let moved = find_stack-update_stack name other f t.stacks (λ r. refl) in
        elim (Bool-cases (name == other)) [
          | inl same ↦
              let e = (eq_iff name other).0 same in
              rw (texted, there, found, same) (moved ∙ ground (arith, e, there, same))
          | inr differs ↦ rw (texted, there, found, differs) (moved ∙ ground (arith, differs))
        ]
  ]
]

note-Agree :
    (name : String) (number : ℕ) (message : String) (now : ℕ) (t : Tables)
    → Agree
        (view (write (note_error name number message now) t))
        (replay (note_error name number message now) (view t))
note-Agree name number message now t = record {
  stacks_agree = λ other. note-stacks name other number message now t;
  revisions_agree = λ other n.
      ap (find_revision other n)
        (kept_revisions (record_stack_error name number message now t) refl);
}
  where
    kept_revisions :
        (r : Result Tables)
        → record_stack_error name number message now t ≡ r
        → (or_kept t r).revisions ≡ t.revisions
    kept_revisions (err e) at = refl
    kept_revisions (ok t') at = record_stack_error-revisions name number message now t t' at

delete-Agree :
    (name : String) (t : Tables)
    → Agree (view (write (delete name) t)) (replay (delete name) (view t))
unfolding delete_stack
delete-Agree name t = record {
  stacks_agree = λ other. find_stack-without_stack name other t.stacks;
  revisions_agree = λ other number. find_revision-without_revisions name other number t.revisions;
}

-- A write to the tables does to the maps what the contract says.
write-Agree : (w : Write) (t : Tables) → Agree (view (write w t)) (replay w (view t))
write-Agree (deploy rev repo_url now) t = deploy-Agree rev repo_url now t
write-Agree (stamp_hash name n hash) t = stamp-Agree name n hash t
write-Agree (note_error name number message now) t = note-Agree name number message now t
write-Agree (delete name) t = delete-Agree name t

Agree-trans : {u v w : View} → Agree u v → Agree v w → Agree u w
Agree-trans h k = record {
  stacks_agree = λ name. h.stacks_agree name ∙ k.stacks_agree name;
  revisions_agree = λ name number. h.revisions_agree name number ∙ k.revisions_agree name number;
}

-- The contract reads the maps alone.
replay-Agree : (w : Write) (u v : View) → Agree u v → Agree (replay w u) (replay w v)
replay-Agree (deploy rev repo_url now) u v h =
    let first = h.revisions_agree rev.stack_name rev.revision in
    elim (Bool-cases (is_some (v.revision_of rev.stack_name rev.revision))) [
      | inl old ↦ rw (first, old) h
      | inr new ↦
          rw (first, new)
            (record {
              stacks_agree = λ name. rw (h.stacks_agree name) refl;
              revisions_agree = λ name number. rw (h.revisions_agree name number) refl;
            })
    ]
replay-Agree (stamp_hash name n hash) u v h = record {
  stacks_agree = h.stacks_agree;
  revisions_agree = λ other number. rw (h.revisions_agree other number) refl;
}
replay-Agree (note_error name number message now) u v h = record {
  stacks_agree = λ other. rw (h.stacks_agree other) refl;
  revisions_agree = h.revisions_agree;
}
replay-Agree (delete name) u v h = record {
  stacks_agree = λ other. rw (h.stacks_agree other) refl;
  revisions_agree = λ other number. rw (h.revisions_agree other number) refl;
}

replays-Agree : (ws : List Write) (u v : View) → Agree u v → Agree (replays ws u) (replays ws v)
unfolding replays
replays-Agree [] u v h = h
replays-Agree (w ∷ ws) u v h = replays-Agree ws (replay w u) (replay w v) (replay-Agree w u v h)

-- The two tables refine the two maps: after any writes, deploys, stamps, errors and deletions in any
-- order, those that fail included, every stack and every revision is read as the contract says,
-- whatever the tables were before.
pub writes_refine :
    (ws : List Write) (t : Tables) → Agree (view (writes ws t)) (replays ws (view t))
unfolding writes replays
writes_refine [] t = record { stacks_agree = λ name. refl; revisions_agree = λ name number. refl }
writes_refine (w ∷ ws) t =
    Agree-trans (writes_refine ws (write w t))
      (replays-Agree ws (view (write w t)) (replay w (view t)) (write-Agree w t))
