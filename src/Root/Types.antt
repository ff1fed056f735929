-- ===== src/Root/Types.antt =====
-- The types of a Runtime: InstallType, Register, Ref and the lookups of gor.go. D, P, C and R are the
-- functions of a registration.
use gor.Prelude.{
  Option, none, some, Bool, true, false, not, [], ◌++◌, Map, get, put, Text, Text-discrete, bytes,
  if◌then◌else◌,
}
use gor.Store.{GrainId, Time, Duration}
use gor.Runtime.Engine.{Engine, Registration, register}
use gor.Root.Errors.{
  GoError, nil, discard, joined, also, no_errors, is_nil, opaque, code, wrap,
  err_type_not_installed,
}

pub record TickStatus : Type 0 where
  pub first_tick_time : Time
  pub period : Duration
  pub current_tick_time : Time

pub record TypeRegistration (D P C R : Type 0) : Type 0 where
  pub dispatch : D
  pub new_proxy : GrainId → P
  pub new_call : Text → C
  pub new_reminder_call : Option (Text → TickStatus → R)

abbrev pub not_installed : Text → GoError
not_installed name = wrap [] (code err_type_not_installed) (bytes ": " ++ name)

-- The error of engine.Register.
abbrev pub registered : (Text → Text) → Text → Bool × Engine → GoError × Engine
registered quote name (true, e) = (nil, e)
registered quote name (false, e) =
    (opaque (bytes "entity type " ++ quote name ++ bytes " is already registered"), e)

abbrev pub reminder_call {ℓ} :
    {R : Type ℓ} → Option (Text → TickStatus → R) → Text → TickStatus → Option R
reminder_call none method status = none
reminder_call (some make) method status = some (make method status)

-- The error of Register's Factory, of what load and the hook return; none without a hook.
unfoldable pub factory_error : GoError → Option GoError → GoError
factory_error load_error hook =
    if not (is_nil load_error) then load_error else elim hook [ none ↦ nil | some e ↦ e ]

-- errors.Join of two errors.
unfoldable pub join_errors : GoError → GoError → GoError
join_errors a b =
    if is_nil a
    then if is_nil b then nil else joined (also b no_errors)
    else if is_nil b
    then joined (also a no_errors)
    else joined (also a (also b no_errors))

-- The error of Register's Dispatch, of what the method returned and the binder's discard error.
unfoldable pub dispatch_error : GoError → GoError → GoError
unfolding join_errors
dispatch_error err discarded =
    if not (is_nil discarded) then discard (join_errors err discarded) else err

module _ (D P C R : Type 0) (quote : Text → Text) where
  abbrev pub Types : Type 0
  Types = Map Text (TypeRegistration D P C R)

  -- InstallType
  unfoldable pub install_type : Text → TypeRegistration D P C R → Types → GoError × Types
  install_type name r types = elim (get Text-discrete name types) [
    | some old ↦
        (opaque (bytes "entity type " ++ quote name ++ bytes " is already installed"), types)
    | none ↦ (nil, put Text-discrete name r types)
  ]

  -- Register
  unfoldable pub register_type : Text → Registration → Types → Engine → GoError × Engine
  unfolding register
  register_type name r types e = elim (get Text-discrete name types) [
    | none ↦ (not_installed name, e)
    | some installed ↦ registered quote name (register name r e)
  ]

  -- Ref; none is its panic.
  unfoldable pub ref : Text → Text → Types → Option P
  ref name key types = elim (get Text-discrete name types) [
    | none ↦ none
    | some r ↦ some (r.new_proxy (record { grain_type = name; grain_key = key }))
  ]

  -- newReminderCall
  unfoldable pub new_reminder_call : GrainId → Text → Time → Duration → Time → Types → Option R
  new_reminder_call id method first period current types =
      elim (get Text-discrete id.grain_type types) [
        | none ↦ none
        | some r ↦
            reminder_call r.new_reminder_call method
              (record { first_tick_time = first; period = period; current_tick_time = current })
      ]
