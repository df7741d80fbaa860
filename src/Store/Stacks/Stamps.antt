-- ===== src/Store/Stacks/Stamps.antt =====
-- The hash that an applied revision gets.
use poor_man_cluster.Common.{
  ℕ, String, ◌≡◌, refl, ap, true, some, List, [], ◌∷◌, arith, Bool-cases, Option-cases, inl, inr,
}
use poor_man_cluster.Common.Errors.{ok}
use poor_man_cluster.Store.Stacks.{
  StackRevision, Tables, is_revision, revision, find_revision, has_revision, stamp,
  set_revision_rendered_hash,
}

find_revision-stamp :
    (name : String) (number : ℕ) (hash : String) (rs : List StackRevision) {r : StackRevision}
    → find_revision name number rs ≡ some r
    → find_revision name number (stamp name number hash rs)
      ≡ some (record r { rendered_hash = hash })
unfolding find_revision stamp
find_revision-stamp name number hash [] {r} h = absurd (ground arith)
find_revision-stamp name number hash (x ∷ rs) {r} h =
    elim (Bool-cases (is_revision name number x)) [
      | inl here ↦
          let e : x ≡ r = ground arith in
          rw (here, here) (ap (λ (y : StackRevision). some (record y { rendered_hash = hash })) e)
      | inr later ↦
          rw (later, later) (find_revision-stamp name number hash rs {r = r} (ground arith))
    ]

find_revision-has_revision :
    (name : String) (number : ℕ) (rs : List StackRevision) {r : StackRevision}
    → find_revision name number rs ≡ some r
    → has_revision name number rs ≡ true
unfolding find_revision has_revision
find_revision-has_revision name number [] {r} h = absurd (ground arith)
find_revision-has_revision name number (x ∷ rs) {r} h =
    ground (arith, find_revision-has_revision name number rs {r = r})

-- Stamping a revision that can be read leaves it with the hash.
pub set_revision_rendered_hash-revision :
    (name : String) (number : ℕ) (hash : String) (t : Tables) {r : StackRevision}
    → revision name number t ≡ ok r
    → (t' : Tables) × (set_revision_rendered_hash name number hash t ≡ ok t')
      × (revision name number t' ≡ ok (record r { rendered_hash = hash }))
unfolding revision set_revision_rendered_hash
set_revision_rendered_hash-revision name number hash t {r} h =
    elim (Option-cases (find_revision name number t.revisions)) [
      | inl gone ↦ absurd (ground arith)
      | inr (x, found) ↦
          let e : find_revision name number t.revisions ≡ some r = ground arith in
          (
            record t { revisions = stamp name number hash t.revisions },
            rw (find_revision-has_revision name number t.revisions e) refl,
            rw (find_revision-stamp name number hash t.revisions e) refl,
          )
    ]
