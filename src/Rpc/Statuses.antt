-- ===== src/Rpc/Statuses.antt =====
-- `tonic::Status`: a code and a message. The functions are its constructors of the same names.
use Prim.Native.String.{String}
use rlvm.Rpc.Codes.{Code}

pub record Status : Type 0 where
  pub code : Code
  pub message : String

abbrev pub invalid_argument : String → Status
invalid_argument text = record { code = Code.invalid_argument; message = text }

abbrev pub not_found : String → Status
not_found text = record { code = Code.not_found; message = text }

abbrev pub already_exists : String → Status
already_exists text = record { code = Code.already_exists; message = text }

abbrev pub permission_denied : String → Status
permission_denied text = record { code = Code.permission_denied; message = text }

abbrev pub failed_precondition : String → Status
failed_precondition text = record { code = Code.failed_precondition; message = text }

abbrev pub aborted : String → Status
aborted text = record { code = Code.aborted; message = text }

abbrev pub out_of_range : String → Status
out_of_range text = record { code = Code.out_of_range; message = text }

abbrev pub unimplemented : String → Status
unimplemented text = record { code = Code.unimplemented; message = text }

abbrev pub internal : String → Status
internal text = record { code = Code.internal; message = text }
