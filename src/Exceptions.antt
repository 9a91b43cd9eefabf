-- ===== src/Exceptions.antt =====
-- exceptions.py: the two exceptions that a step records, and the errors that code raises.
use rpacore.Base.{ℕ, String, Bool, true, false, List, [], ◌∷◌}

pub data ExceptionKind : Type 0 where
  business system : ExceptionKind

-- A `BusinessException` or a `SystemException` object. `occurred_at` is a time in microseconds.
pub record StepException : Type 0 where
  pub kind : ExceptionKind
  pub message : String
  pub action : String
  pub retry_number : ℕ
  pub occurred_at : ℕ
  pub screenshot_path : String
  pub halts_flag : Bool  -- the constructor argument of `BusinessException`
  pub code : String

abbrev is_system_kind : ExceptionKind → Bool
is_system_kind ExceptionKind.system = true
is_system_kind ExceptionKind.business = false

-- `isinstance(exc, SystemException)`
abbrev pub is_system : StepException → Bool
is_system e = is_system_kind e.kind

abbrev is_business_kind : ExceptionKind → Bool
is_business_kind ExceptionKind.business = true
is_business_kind ExceptionKind.system = false

-- `isinstance(exc, BusinessException)`
abbrev pub is_business : StepException → Bool
is_business e = is_business_kind e.kind

abbrev pub halts_of : ExceptionKind → Bool → Bool
halts_of ExceptionKind.business flag = flag
halts_of ExceptionKind.system flag = true

-- `exc.halts_remaining_steps`, a property that is always true of a `SystemException`.
abbrev pub halts_remaining_steps : StepException → Bool
halts_remaining_steps e = halts_of e.kind e.halts_flag

-- `exceptions and isinstance(exceptions[-1], kind)` for a test on the last exception.
abbrev pub last_is : (StepException → Bool) → List StepException → Bool
last_is p [] = false
last_is p (e ∷ []) = p e
last_is p (_ ∷ e ∷ es) = last_is p (e ∷ es)

-- What Python code raises. A message is kept only where the code stores it.
pub data Error : Type 0 where
  execution_validation definition_identity json_state : Error
  value_error type_error key_error runtime_error sqlite_locked sqlite_error : Error
  queue_lease_lost transaction_fence lease_renewal durable_binding : Error
  checkpoint_failed : Bool → Error  -- `_CheckpointError` with its `retry`
  business_exception system_exception : Error
  memory_error keyboard_interrupt system_exit : Error
  other : ℕ → Error

abbrev pub is_memory_error : Error → Bool
is_memory_error memory_error = true
is_memory_error _ = false

-- `isinstance(error, Exception)`, which a `MemoryError` is too.
abbrev pub is_exception : Error → Bool
is_exception keyboard_interrupt = false
is_exception system_exit = false
is_exception _ = true

-- `DefinitionIdentityError` is a subclass.
abbrev pub is_execution_validation : Error → Bool
is_execution_validation execution_validation = true
is_execution_validation definition_identity = true
is_execution_validation _ = false
