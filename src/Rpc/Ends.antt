-- ===== src/Rpc/Ends.antt =====
-- How a program ended, as predicates.
use mathlib.Core.Path.{◌≡◌}
use rlvm.Base.{⊤}
use rlvm.Rpc.Actions.{Outcome, reply, fail, panic}
use rlvm.Rpc.Codes.{Code}
use rlvm.Rpc.Statuses.{Status}

-- The call ended in an error with this code.
abbrev pub FailsWith : {A S : Type 0} → Code → Outcome Status A × S → Type 0
FailsWith code (fail e, s) = e.code ≡ code
FailsWith code (r, s) = ⊥

abbrev pub Replies : {E A S : Type 0} → Outcome E A × S → Type 0
Replies (reply a, s) = ⊤
Replies (r, s) = ⊥

abbrev pub Panics : {E A S : Type 0} → Outcome E A × S → Type 0
Panics (panic, s) = ⊤
Panics (r, s) = ⊥
