-- ===== src/Errors/Failure.antt =====
-- A failure of code that only hands its errors on: the call of errors/errors.go that builds the error,
-- without its options. The result of such a call is the subject of Errors/ErrorT and of Errors/Chain.
use garlic.Common.{String}
use garlic.Errors.Kind.{Kind}
use garlic.Errors.ErrorT.{Err}

pub data Failure : Type 0 where
  new : Kind → String → Failure
  propagate_as : Kind → Err → String → Failure
  propagate : Failure → String → Failure
  given : Err → Failure  -- as another function returned it
