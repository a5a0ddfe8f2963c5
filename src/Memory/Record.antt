-- ===== src/Memory/Record.antt =====
-- memory/model.py: the rows of the ledger, what a caller gets back and what a backend finds; a
-- Tuple is core/engine.py's.
use headofcontext.Prelude.{String, List}
use headofcontext.Prelude.Int.{ℤ}

pub record MemoryRecord : Type 0 where
  pub memory_id : String
  pub written_for : String
  pub written_by : String
  pub derived_from : List String
  pub content_hash : String
  pub backend : String
  pub backend_ref : String
  pub created_at : ℤ

pub record Memory : Type 0 where
  pub memory_id : String
  pub content : String
  pub derived_from : List String
  pub written_for : String
  pub written_by : String
  pub created_at : ℤ

-- The score is left out, since no code here reads it.
pub record Candidate : Type 0 where
  pub content : String
  pub backend_refs : List String

-- The user, the relation and the object.
pub record Tuple : Type 0 where
  pub user : String
  pub relation : String
  pub object : String

-- A call that a tuple store or a backend accepted; what it then holds is its own affair.
pub data TupleWrite : Type 0 where
  wrote removed : List Tuple → TupleWrite

pub data ContentWrite : Type 0 where
  stored : (memory_id content namespace ref : String) → ContentWrite
  erased : (ref namespace : String) → ContentWrite
