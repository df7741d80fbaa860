-- ===== src/Store/Stacks/Contract.antt =====
-- What the store of stacks promises: two maps, from names to stacks and from names and numbers to
-- revisions, and what each write does to them.
pub mod Refines
pub mod Reads
use poor_man_cluster.Common.{
  ℕ, String, ◌==◌, Bool, true, false, ◌&&◌, Option, none, some, List, [], ◌∷◌, if◌then◌else◌, eqb,
  take,
}
use poor_man_cluster.Common.Errors.{Result, ok, err}
use poor_man_cluster.Store.Stacks.{
  Stack, StackRevision, Tables, history, new_stack, moved_to, parse_stack_errors, record_deploy,
  set_revision_rendered_hash, record_stack_error, delete_stack, find_stack, find_revision,
}
use poor_man_cluster.Store.Stacks.ErrorHistory.{entry_of}

-- A write to the store, with its time.
pub data Write : Type 0 where
  deploy : StackRevision → String → ℕ → Write
  stamp_hash : String → ℕ → String → Write
  note_error : String → ℕ → String → ℕ → Write
  delete : String → Write

abbrev or_kept : Tables → Result Tables → Tables
or_kept t (err e) = t
or_kept t (ok t') = t'

-- A write to the tables; one that fails leaves them.
abbrev pub write : Write → Tables → Tables
write (deploy rev repo_url now) t = or_kept t (record_deploy rev repo_url now t)
write (stamp_hash name number hash) t = or_kept t (set_revision_rendered_hash name number hash t)
write (note_error name number message now) t =
    or_kept t (record_stack_error name number message now t)
write (delete name) t = (delete_stack name t).1

pub writes : List Write → Tables → Tables
writes [] t = t
writes (w ∷ ws) t = writes ws (write w t)

-- The two maps.
pub record View : Type 0 where
  pub stack_of : String → Option Stack
  pub revision_of : String → ℕ → Option StackRevision

abbrev pub view : Tables → View
view t = record {
  stack_of = λ name. find_stack name t.stacks;
  revision_of = λ name number. find_revision name number t.revisions;
}

abbrev pub is_some {ℓ} : {A : Type ℓ} → Option A → Bool
is_some none = false
is_some (some a) = true

abbrev pub mapped {ℓ κ} : {A : Type ℓ} {B : Type κ} → (A → B) → Option A → Option B
mapped f none = none
mapped f (some a) = some (f a)

abbrev pub deployed_stack : StackRevision → String → ℕ → Option Stack → Stack
deployed_stack rev repo_url now none = new_stack rev repo_url now
deployed_stack rev repo_url now (some s) = moved_to rev repo_url now s

abbrev pub noted : ℕ → String → ℕ → Stack → Stack
noted number message now s = record s {
  last_error = history (take 20 (entry_of number message now ∷ parse_stack_errors s.last_error));
  updated_at = now;
}

-- What a write does to the maps: a deploy under a new number adds the revision and creates its
-- stack or points it there, a stamp sets a hash, an error with a text goes before a stack's
-- history, and a deletion removes the stack with all its revisions.
abbrev pub replay : Write → View → View
replay (deploy rev repo_url now) v =
    if is_some (v.revision_of rev.stack_name rev.revision) then v else record {
      stack_of = λ name.
          if rev.stack_name == name
          then some (deployed_stack rev repo_url now (v.stack_of name))
          else v.stack_of name;
      revision_of = λ name number.
          if rev.stack_name == name && eqb rev.revision number
          then some (record rev { created_at = now })
          else v.revision_of name number;
    }
replay (stamp_hash name n hash) v = record v {
  revision_of = λ other number.
      if name == other && eqb n number
      then mapped (λ (r : StackRevision). record r { rendered_hash = hash })
          (v.revision_of other number)
      else v.revision_of other number;
}
replay (note_error name number message now) v = record v {
  stack_of = λ other.
      if name == other
      then (if message == ""
          then v.stack_of other
          else mapped (noted number message now) (v.stack_of other))
      else v.stack_of other;
}
replay (delete name) v = record {
  stack_of = λ other. if name == other then none else v.stack_of other;
  revision_of = λ other number. if name == other then none else v.revision_of other number;
}

pub replays : List Write → View → View
replays [] v = v
replays (w ∷ ws) v = replays ws (replay w v)
