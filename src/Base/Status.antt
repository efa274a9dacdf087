-- ===== src/Base/Status.antt =====
-- The status of a gRPC call that fails: its code and its message.
use blitzy_localgcp.Base.Errors.{Result, err}
use blitzy_localgcp.Base.Text.{Str}

pub data Code : Type 0 where
  invalid_argument not_found already_exists failed_precondition internal unimplemented : Code

pub record Status : Type 0 where
  pub code : Code
  pub message : Str

-- status.Errorf, as the answer of a handler.
abbrev pub reject : {A : Type 0} → Code → Str → Result Status A
reject code message = err (record { code = code; message = message })
