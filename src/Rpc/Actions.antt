-- ===== src/Rpc/Actions.antt =====
-- Handlers and the calls they make, over the state `S` of the host. A handler replies, fails with
-- a status or panics; what it did to the host before that stays done.
use mathlib.Core.Bool.{Bool, true, false}
use mathlib.Core.Option.{Option, none, some}
use rlvm.Base.{⊤}
use rlvm.Rpc.Statuses.{Status}

pub data Result (E A : Type 0) : Type 0 where
  ok : A → Result E A
  err : E → Result E A

-- `panic` is a Rust panic: `unwrap` of `None`, `expect` of an error, `todo!()`, an overflow.
pub data Outcome (E A : Type 0) : Type 0 where
  reply : A → Outcome E A
  fail : E → Outcome E A
  panic : Outcome E A

-- A call of something outside the program.
abbrev pub Call : Type 0 → Type 0 → Type 0 → Type 0
Call S E A = S → Result E A × S

-- Code that returns `Result<A, E>`.
abbrev pub Program : Type 0 → Type 0 → Type 0 → Type 0
Program S E A = S → Outcome E A × S

-- A handler's code.
abbrev pub Action : Type 0 → Type 0 → Type 0
Action S A = Program S Status A

-- The message of a request, and the value that an interceptor put among its extensions.
pub record Request (X A : Type 0) : Type 0 where
  pub extension : Option X
  pub message : A

abbrev pub with_extension : {X A : Type 0} → X → A → Request X A
with_extension x a = record { extension = some x; message = a }

infixl 5 ◌>>=◌ ◌>>◌
abbrev pub ◌>>=◌ : {S E A B : Type 0} → Program S E A → (A → Program S E B) → Program S E B
◌>>=◌ m f s =
    let (r, s') = m s in elim r [ reply a ↦ f a s' | fail e ↦ (fail e, s') | panic ↦ (panic, s') ]

abbrev pub ◌>>◌ : {S E A B : Type 0} → Program S E A → Program S E B → Program S E B
m >> k = m >>= λ _. k

module _ {S E A : Type 0} where
  abbrev pub pure : A → Program S E A
  pure a s = (reply a, s)

  -- `return Err(e)`
  abbrev pub raise : E → Program S E A
  raise e s = (fail e, s)

  abbrev pub crash : Program S E A
  crash s = (panic, s)

  -- A question about the state that cannot fail.
  abbrev pub gets : (S → A) → Program S E A
  gets f s = (reply (f s), s)

  -- `o.ok_or(e)?`
  abbrev pub or_raise : Option A → E → Program S E A
  or_raise none e = raise e
  or_raise (some a) e = pure a

  -- `o.unwrap()`
  abbrev pub unwrap : Option A → Program S E A
  unwrap none = crash
  unwrap (some a) = pure a

module _ {S D E A : Type 0} where
  -- `r.map_err(f)?`
  abbrev pub check : Result D A → (D → E) → Program S E A
  check (ok a) f = pure a
  check (err e) f = raise (f e)

  -- `call.map_err(f)?`
  abbrev pub attempt : Call S D A → (D → E) → Program S E A
  attempt call f s = let (r, s') = call s in check r f s'

  -- A call whose result, error or not, the code goes on with.
  abbrev pub settle : Call S D A → Program S E (Result D A)
  settle call s = let (r, s') = call s in (reply r, s')

  -- `call.expect(…)`
  abbrev pub expect : Call S D A → Program S E A
  expect call s = let (r, s') = call s in elim r [ ok a ↦ (reply a, s') | err e ↦ (panic, s') ]

-- `call?`
abbrev pub forward : {S E A : Type 0} → Call S E A → Program S E A
forward call = attempt call (λ e. e)

-- `if test { return Err(e) }`
abbrev pub raise_if : {S E : Type 0} → Bool → E → Program S E ⊤
raise_if true e = raise e
raise_if false e = pure tt

-- What the caller of a server sees: `panicked` is the status of a call whose handler panicked.
abbrev pub answer : {S E A : Type 0} → E → Program S E A → Call S E A
answer panicked m s =
    let (r, s') = m s in
    elim r [ reply a ↦ (ok a, s') | fail e ↦ (err e, s') | panic ↦ (err panicked, s') ]
