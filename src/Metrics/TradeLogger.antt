-- ===== src/Metrics/TradeLogger.antt =====
-- metrics/trade_logger.cpp: the binary log of fills. Whether `fopen` and `fwrite` succeed is an
-- argument; a write that fails is taken to leave no whole record.
use lockfree_matching_engine.Prelude.{
  ℕ, Bool, true, false, List, [], ◌∷◌, ◌++◌, if◌then◌else◌, add64,
}
use lockfree_matching_engine.Transport.Message.{FillMessage}

-- The magic bytes `FILL`, the version and the size of a record, and the records.
pub record LogFile : Type 0 where
  pub magic : List ℕ
  pub version : ℕ
  pub record_size : ℕ
  pub records : List FillMessage

-- `file` is what the path holds; `is_open` says that `file_` is not null.
pub record TradeLogger : Type 0 where
  pub is_open : Bool
  pub file : LogFile
  pub total_logged : ℕ

abbrev pub log_header : ℕ → LogFile
log_header record_size = record {
  magic = b'F' ∷ b'I' ∷ b'L' ∷ b'L' ∷ [];
  version = 1;
  record_size = record_size;
  records = [];
}

-- "wb": the file is truncated, and the header written.
unfoldable pub open_log : Bool → ℕ → TradeLogger → Bool × TradeLogger
open_log opened record_size t =
    if opened
    then (true, record { is_open = true; file = log_header record_size; total_logged = 0 })
    else (false, record t { is_open = false })

abbrev pub append_record : FillMessage → LogFile → LogFile
append_record fill file = record file { records = file.records ++ fill ∷ [] }

unfoldable pub log : Bool → FillMessage → TradeLogger → TradeLogger
log wrote fill t =
    if t.is_open
    then if wrote
      then record t { file = append_record fill t.file; total_logged = add64 t.total_logged 1 }
      else t
    else t

abbrev pub close_log : TradeLogger → TradeLogger
close_log t = record t { is_open = false }
