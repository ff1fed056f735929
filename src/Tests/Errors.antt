-- ===== src/Tests/Errors.antt =====
-- Errors with one code, two codes and none.
use gor.Prelude.{some, [], ◌≡◌, ◌↔◌, refl, arith, bytes, Text-discrete}
use gor.Root.Errors.{
  Code, GoError, opaque, sentinel, code, coded, wrap, joined, no_errors, also, mail_closed, code_of,
  walk, error_envelope_for, error_from_envelope, add_code, holds_code, err_persistence_conflict,
}
use gor.Root.Errors.Codes.{Reaches, code_of_iff, Received, error_from_envelope_lem}

-- A method returned the error of a failed Set, and the binder's own error for it is joined to it.
abbrev pub conflict_twice : GoError
conflict_twice = joined (
    also (wrap (bytes "set: ") (coded err_persistence_conflict (opaque (bytes "stale"))) [])
      (also (coded err_persistence_conflict (opaque (bytes "discarded"))) no_errors))

found : code_of conflict_twice ≡ some err_persistence_conflict
unfolding code_of walk add_code holds_code Text-discrete
found = refl

code_of_iff_example : (code_of conflict_twice ≡ some err_persistence_conflict) ↔ (
    Reaches err_persistence_conflict conflict_twice
    × ((d : Code) → Reaches d conflict_twice → d ≡ err_persistence_conflict))
code_of_iff_example = code_of_iff conflict_twice err_persistence_conflict

error_from_envelope_lem_example :
    Received conflict_twice (error_from_envelope (error_envelope_for conflict_twice))
error_from_envelope_lem_example =
    error_from_envelope_lem conflict_twice refl (λ e. ground (arith, found))

-- Two codes, and a sentinel that publicError classifies.
abbrev undetermined : GoError
undetermined =
    joined
      (also (code (bytes "a")) (also (code (bytes "b")) (also (sentinel mail_closed) no_errors)))
