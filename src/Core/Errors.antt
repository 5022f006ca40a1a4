-- ===== src/Core/Errors.antt =====
-- The errors that the packages return, and the outcome of a call: a value, an error or a panic
-- (a nil pointer that is dereferenced).

-- `core.Err…`, `durable.ErrState` and the `etsi020.Error` of a refused profile option.
pub data Error : Type 0 where
  invalid duplicate unavailable unauthorized capacity : Error
  state : Error
  unsupported_target_count unsupported_mandatory_extension synchronous_mode : Error
  no_all_confirmation : Error

-- How a call ends: `panic` first, a value, or one of the errors.
pub data Result {ℓ} (A : Type ℓ) : Type ℓ where
  panic : Result A
  ok : A → Result A
  err : Error → Result A
