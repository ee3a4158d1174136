-- ===== src/Plan.antt =====
-- src/model/plan.rs: the steps of a run and of a restore.
use bbkar.Common.{List}
use bbkar.Timestamp.{Timestamp}

pub data RunStep : Type 0 where
  send_full : Timestamp → RunStep
  -- the snapshot and its parent
  send_incremental : Timestamp → Timestamp → RunStep

pub record RunPlan : Type 0 where
  pub steps : List RunStep

pub data RestoreStep : Type 0 where
  receive_full : Timestamp → RestoreStep
  -- the snapshot and its parent
  receive_incremental : Timestamp → Timestamp → RestoreStep

pub record RestorePlan : Type 0 where
  pub steps : List RestoreStep
