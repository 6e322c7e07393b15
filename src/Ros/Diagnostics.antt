-- ===== src/Ros/Diagnostics.antt =====
-- diagnostic_msgs: KeyValue, DiagnosticStatus and DiagnosticArray.
use huma_ware.Common.{ℕ, String, List}
use huma_ware.Ros.Time.{Time}

abbrev pub level_ok : ℕ
level_ok = 0

abbrev pub level_warn : ℕ
level_warn = 1

abbrev pub level_error : ℕ
level_error = 2

abbrev pub level_stale : ℕ
level_stale = 3

pub record KeyValue : Type 0 where
  pub key : String
  pub value : String

pub record DiagnosticStatus : Type 0 where
  pub name : String
  pub hardware_id : String
  pub level : ℕ
  pub message : String
  pub values : List KeyValue

pub record DiagnosticArray : Type 0 where
  pub stamp : Time
  pub status : List DiagnosticStatus
