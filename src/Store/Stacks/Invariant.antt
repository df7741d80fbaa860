-- ===== src/Store/Stacks/Invariant.antt =====
-- What holds of the two tables between two writes.
use poor_man_cluster.Common.{◌≡◌, true, false, List, [], ◌∷◌, All}
use poor_man_cluster.Store.Stacks.{Stack, StackRevision, Tables, has_stack, has_revision}

abbrev pub DistinctStacks : List Stack → Type 0
DistinctStacks [] = Unit
DistinctStacks (s ∷ ss) = (has_stack s.name ss ≡ false) × DistinctStacks ss

abbrev pub DistinctRevisions : List StackRevision → Type 0
DistinctRevisions [] = Unit
DistinctRevisions (r ∷ rs) =
    (has_revision r.stack_name r.revision rs ≡ false) × DistinctRevisions rs

-- A revision belongs to a stack of the table.
abbrev pub IsOwned : List Stack → StackRevision → Type 0
IsOwned ss r = has_stack r.stack_name ss ≡ true

-- A stack points to one of its revisions.
abbrev pub IsCurrent : List StackRevision → Stack → Type 0
IsCurrent rs s = has_revision s.name s.current_revision rs ≡ true

pub record WellFormed (t : Tables) : Type 0 where
  pub stacks_distinct : DistinctStacks t.stacks
  pub revisions_distinct : DistinctRevisions t.revisions
  pub owned : All (IsOwned t.stacks) t.revisions
  pub current : All (IsCurrent t.revisions) t.stacks
