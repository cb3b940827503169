-- ===== src/Store/Files.antt =====
-- What internal/store/memory.go uses of `os`, `path/filepath` and `encoding/json`: parameters of the
-- model. A call takes the disk and gives the disk after it; `none` is an error of the call.
use tonpayment.Base.{Option}
use tonpayment.Base.Text.{Text}
use tonpayment.Base.Dict.{Dict}
use tonpayment.Store.Invoices.{Invoice}

-- The outcome of `os.ReadFile`: the bytes, an error for which `os.IsNotExist` holds, or another.
pub data Contents : Type 0 where
  found : Text → Contents
  missing unreadable : Contents

pub record Files : Type 1 where
  pub Disk : Type 0
  pub read_file : Text → Disk → Contents
  pub mkdir_all : Text → Disk → Option (Unit {0}) × Disk
  pub write_file : Text → Text → Disk → Option (Unit {0}) × Disk
  pub rename : Text → Text → Disk → Option (Unit {0}) × Disk
  -- `filepath.Join`
  pub join : Text → Text → Text
  -- `json.MarshalIndent` of a snapshot, and `json.Unmarshal` into one, whose `invoices` may be null.
  pub marshal : Dict Invoice → Option Text
  pub unmarshal : Text → Option (Option (Dict Invoice))
