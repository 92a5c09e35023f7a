-- ===== src/Store/Statement.antt =====
-- State passing with errors, and one statement of the database.
use rivo.Prelude.{ℕ, suc, String, Option, none, some}
use rivo.Base.{Error, Result, ok, err}
use rivo.Store.Rows.{Time, Store}

-- What becomes of a call of a job handler: it returns before the context of the call has ended, or
-- after that, or it panics with a value that prints as the text.
pub data Fate : Type 0 where
  in_time : Fate
  late : Fate
  panics : (text : String) → Fate

-- What the program does not decide: what the clock reads at an event, whether the statement sent at
-- an event fails, what becomes of a handler that is called at an event, and the text of the stack
-- at an event. Events are numbered by `Store.event`.
pub record World : Type 0 where
  pub clock : ℕ → Time
  pub fault : ℕ → Option Error
  pub call : ℕ → Fate
  pub stack : ℕ → String

abbrev pub M {ℓ} : Type ℓ → Type ℓ
M A = Store → Result A × Store

abbrev pub pure {ℓ} : {A : Type ℓ} → A → M A
pure a s = (ok a, s)

abbrev pub throw {ℓ} : {A : Type ℓ} → Error → M A
throw e s = (err e, s)

abbrev pub and_then {ℓ κ} : {A : Type ℓ} {B : Type κ} → Result A → (A → M B) → M B
and_then (ok a) f s = f a s
and_then (err e) f s = (err e, s)

infixl 5 ◌>>=◌ ◌>>◌
abbrev pub ◌>>=◌ {ℓ κ} : {A : Type ℓ} {B : Type κ} → M A → (A → M B) → M B
◌>>=◌ m f s = let (r, s') = m s in and_then r f s'

abbrev pub ◌>>◌ {ℓ κ} : {A : Type ℓ} {B : Type κ} → M A → M B → M B
◌>>◌ m k s = let (r, s') = m s in and_then r (λ _. k) s'

-- A call whose error is dropped: `x, _ := f()` with the zero value, or a bare `f()`.
abbrev pub or_zero {ℓ} : {A : Type ℓ} → A → Result A → A
or_zero z (ok a) = a
or_zero z (err e) = z

abbrev pub ignore_error {ℓ} : {A : Type ℓ} → A → M A → M A
ignore_error z m s = let (r, s') = m s in (ok (or_zero z r), s')

-- `fmt.Errorf("...: %w", err)` on the error path.
abbrev pub map_error {ℓ} : {A : Type ℓ} → (Error → Error) → Result A → Result A
map_error f (ok a) = ok a
map_error f (err e) = err (f e)

abbrev pub with_error {ℓ} : {A : Type ℓ} → (Error → Error) → M A → M A
with_error f m s = let (r, s') = m s in (map_error f r, s')

abbrev pub tick : Store → Store
tick s = record s { event = suc s.event }

-- `time.Now()`
abbrev pub time_now : World → M Time
time_now w s = (ok (w.clock s.event), tick s)

abbrev pub get_event : M ℕ
get_event s = (ok s.event, tick s)

-- One statement, which is atomic: it fails and changes nothing, or it runs at its `NOW()`.
abbrev pub outcome {ℓ} :
    {A : Type ℓ} → Option Error → (Store → Result A × Store) → Store → Result A × Store
outcome (some e) body s = (err e, s)
outcome none body s = body s

unfoldable pub statement {ℓ} : {A : Type ℓ} → World → (Time → Store → Result A × Store) → M A
statement w body s = outcome (w.fault s.event) (body (w.clock s.event)) (tick s)
