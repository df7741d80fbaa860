-- ===== src/Store/Stacks/Schema.antt =====
-- The rows of internal/store/stacks.go.
use poor_man_cluster.Common.{ℕ, String, Option, List}

-- `StackErrorEntry`
pub record StackErrorEntry : Type 0 where
  pub revision : ℕ
  pub error : String
  pub created_at : ℕ

-- The column `last_error`, by what it decodes to: blank (or `[]`), a JSON array, or other text.
pub data ErrorColumn : Type 0 where
  blank : ErrorColumn
  history : List StackErrorEntry → ErrorColumn
  malformed : String → ErrorColumn

-- `Stack`
pub record Stack : Type 0 where
  pub name : String
  pub current_revision : ℕ
  pub repo_url : Option String
  pub source_file : String
  pub last_error : ErrorColumn
  pub created_at : ℕ
  pub updated_at : ℕ

-- `StackRevision`
pub record StackRevision : Type 0 where
  pub stack_name : String
  pub revision : ℕ
  pub source_yaml : String
  pub rendered_yaml : String
  pub rendered_hash : String
  pub source_file : String
  pub payload_json : Option String
  pub created_at : ℕ

-- A row of `configs` or `secrets`, as far as its owner goes: "" for a shared row.
pub record OwnedRow : Type 0 where
  pub name : String
  pub stack : String

pub record Tables : Type 0 where
  pub stacks : List Stack
  pub revisions : List StackRevision
  pub configs : List OwnedRow
  pub secrets : List OwnedRow
