-- ===== src/Base/Errors.antt =====
-- Go errors as values: the sentinels of client.go and scheduler.go, an error made from a text
-- (`errors.New`, `fmt.Errorf`, or one that another package returned), and one wrapped by `%w`.
use rivo.Prelude.{String, ◌≡◌, refl, ◌⊎◌, inl, inr}
use Prim.Native.String.{◌++◌}

pub data Error : Type 0 where
  already_started not_started invalid_job_kind handler_not_found : Error
  workflow_not_found workflow_run_not_found not_implemented : Error
  message : String → Error
  wrapf : String → Error → Error
  -- `fmt.Errorf("%w: %s", err, s)`
  wrap_suffix : Error → String → Error

-- The method `Error()`.
pub error_text : Error → String
error_text already_started = "client already started"
error_text not_started = "client not started"
error_text invalid_job_kind = "job kind is required"
error_text handler_not_found = "handler not found for job kind"
error_text workflow_not_found = "workflow not found"
error_text workflow_run_not_found = "workflow run not found"
error_text not_implemented = "not implemented"
error_text (message s) = s
error_text (wrapf s e) = s ++ error_text e
error_text (wrap_suffix e s) = error_text e ++ (": " ++ s)

-- The pair `(value, error)` that a Go function returns: a value, or an error that is not nil.
pub data Result {ℓ} (A : Type ℓ) : Type ℓ where
  ok : A → Result A
  err : Error → Result A

pub Result-cases {ℓ} :
    {A : Type ℓ} (r : Result A) → ((a : A) × (r ≡ ok a)) ⊎ ((e : Error) × (r ≡ err e))
Result-cases (ok a) = inl (a, refl)
Result-cases (err e) = inr (e, refl)
