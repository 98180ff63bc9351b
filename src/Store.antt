-- ===== src/Store.antt =====
-- internal/store: the database. Its rows as values; a read or write that the driver fails is an
-- outcome of its own.
pub mod Settings
pub mod Table
pub mod Probes
pub mod Targets
pub mod Catalog
use cqu_netprobe_gateway.Prelude.{ℕ, String, Bool, true, false, List, if◌then◌else◌}
use cqu_netprobe_gateway.Prelude.Time.{Time}

pub record Probe : Type 0 where
  pub id : ℕ
  pub probe_id : String
  pub token_hash : String
  pub campus_code : String
  pub campus_name : String
  pub building_group_code : String
  pub building_group_name : String
  pub building_code : String
  pub building_name : String
  pub network_type : String
  pub enabled : Bool
  pub description : String
  pub rotated_at : Time
  pub created_via : String
  pub created_at : Time
  pub updated_at : Time

-- A target as it is handed to a probe.
pub record StoredTarget : Type 0 where
  pub target_id : String
  pub address : String
  pub probe_types : List String

-- The outcomes of a lookup of one row: `ErrNotFound` is told apart from a failure.
pub data Lookup {ℓ} (A : Type ℓ) : Type ℓ where
  not_found failed : Lookup A
  found : A → Lookup A

-- What a write returns: nil, `ErrNotFound`, `ErrDuplicate`, `ErrInUse`, or another error.
pub data WriteResult : Type 0 where
  written missing duplicate in_use write_failed : WriteResult

-- What the driver does with a statement: it runs it, refuses it, or runs it and then fails to tell
-- the number of rows.
pub data Exec : Type 0 where
  ran refused uncounted : Exec

abbrev pub is_refused : Exec → Bool
is_refused refused = true
is_refused ran = false
is_refused uncounted = false

-- A statement that leads from `before` to `after`, with `requireAffected` behind it.
unfoldable pub execute {ℓ} : {A : Type ℓ} → Exec → A → A → Bool → A × WriteResult
execute refused before after affected = (before, write_failed)
execute uncounted before after affected = (after, write_failed)
execute ran before after affected = (after, if affected then written else missing)

-- What the driver does in a transaction: with its beginning, its first statement, the later ones, and
-- its end. A transaction that does not commit leaves nothing behind.
pub record Transaction : Type 0 where
  pub begin_fails : Bool
  pub statement : Exec
  pub clear_fails : Bool
  pub type_fails : String → Bool
  pub commit_fails : Bool

-- The deferred rollback and the commit, around what the statements made of the tables.
unfoldable pub committed {ℓ} : {A : Type ℓ} → Transaction → A → A × WriteResult → A × WriteResult
committed d before (after, written) =
    if d.commit_fails then (before, write_failed) else (after, written)
committed d before (after, missing) = (before, missing)
committed d before (after, duplicate) = (before, duplicate)
committed d before (after, in_use) = (before, in_use)
committed d before (after, write_failed) = (before, write_failed)

unfoldable pub in_transaction {ℓ} :
    {A : Type ℓ} → Transaction → A → A × WriteResult → A × WriteResult
unfolding committed
in_transaction d before done =
    if d.begin_fails then (before, write_failed) else committed d before done
