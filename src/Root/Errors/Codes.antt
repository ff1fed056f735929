-- ===== src/Root/Errors/Codes.antt =====
-- CodeOf, publicError and the envelopes (errors.go, forward.go): which code a call's error has, and what
-- of it crosses the network.
use gor.Prelude.{
  Bool, true, false, ◌||◌, none, some, List, [], ◌∷◌, ◌≡◌, ◌≢◌, ◌⊎◌, ◌↔◌, inl, inr, refl, sym, ap,
  subst, ◌∙◌, if◌then◌else◌, Text-discrete, arith, Bool-cases, Option-cases,
}
use mathlib.Core.Logic.{if_neg}
use gor.Root.Errors.{
  Code, GoError, Sentinel, nil, opaque, sentinel, code, coded, remote, wrap, discard, joined,
  GoErrors, no_errors, also, is_nil, message, Target, a_sentinel, a_code, is_error, node_dead,
  runtime_closed, mail_closed, overloaded, type_not_registered, conflict, panicked, call_cycle,
  err_node_dead, err_runtime_closed, err_overloaded, err_type_not_installed,
  err_persistence_conflict, err_panic, err_call_cycle, is_kept, holds_code, add_code, walk,
  walk_all, sole, code_of, classify, public_error, error_envelope_for, error_from_envelope,
}

-- The error, an error that it wraps, or a branch of a join, carries the code.
abbrev mutual
  pub Reaches : Code → GoError → Type 0
  Reaches c nil = ⊥
  Reaches c (opaque t) = ⊥
  Reaches c (sentinel s) = ⊥
  Reaches c (code d) = d ≡ c
  Reaches c (coded d e) = (d ≡ c) ⊎ Reaches c e
  Reaches c (remote d t) = d ≡ c
  Reaches c (wrap before e after) = Reaches c e
  Reaches c (discard e) = Reaches c e
  Reaches c (joined es) = ReachesAny c es

  pub ReachesAny : Code → GoErrors → Type 0
  ReachesAny c no_errors = ⊥
  ReachesAny c (also e es) = Reaches c e ⊎ ReachesAny c es

abbrev In : Code → List Code → Type 0
In c [] = ⊥
In c (d ∷ ds) = (d ≡ c) ⊎ In c ds

abbrev IsDistinct : List Code → Type 0
IsDistinct [] = Unit
IsDistinct (c ∷ cs) = (holds_code c cs ≡ false) × IsDistinct cs

holds_code_iff : (c : Code) (cs : List Code) → (holds_code c cs ≡ true) ↔ In c cs
unfolding holds_code
holds_code_iff c [] = ground arith
holds_code_iff c (d ∷ ds) = ground (arith, holds_code_iff c ds)

add_code_iff : (c d : Code) (cs : List Code) → In c (add_code d cs) ↔ ((d ≡ c) ⊎ In c cs)
unfolding add_code
add_code_iff c d cs = elim (Bool-cases (holds_code d cs)) [
  | inl h ↦
      rw h (
        inr,
        λ s. elim s [ inl e ↦ subst (λ x. In x cs) e ((holds_code_iff d cs).0 h) | inr m ↦ m ],
      )
  | inr h ↦ rw h (λ s. s, λ s. s)
]

add_code-IsDistinct : (d : Code) (cs : List Code) → IsDistinct cs → IsDistinct (add_code d cs)
unfolding add_code
add_code-IsDistinct d cs u = elim (Bool-cases (holds_code d cs)) [
  | inl h ↦ rw h u
  | inr h ↦ rw h (h, u)
]

mutual
  unfolding walk

  walk_iff : (c : Code) (e : GoError) (cs : List Code) → In c (walk e cs) ↔ (Reaches c e ⊎ In c cs)
  walk_iff c nil cs = ground arith
  walk_iff c (opaque t) cs = ground arith
  walk_iff c (sentinel s) cs = ground arith
  walk_iff c (code d) cs = add_code_iff c d cs
  walk_iff c (coded d e) cs = ground (arith, walk_iff c e (add_code d cs), add_code_iff c d cs)
  walk_iff c (remote d t) cs = add_code_iff c d cs
  walk_iff c (wrap before e after) cs = walk_iff c e cs
  walk_iff c (discard e) cs = walk_iff c e cs
  walk_iff c (joined es) cs = walk_all_iff c es cs

  walk_all_iff :
      (c : Code) (es : GoErrors) (cs : List Code)
      → In c (walk_all es cs) ↔ (ReachesAny c es ⊎ In c cs)
  walk_all_iff c no_errors cs = ground arith
  walk_all_iff c (also e es) cs = ground (arith, walk_iff c e cs, walk_all_iff c es (walk e cs))

mutual
  unfolding walk

  walk-IsDistinct : (e : GoError) (cs : List Code) → IsDistinct cs → IsDistinct (walk e cs)
  walk-IsDistinct nil cs u = u
  walk-IsDistinct (opaque t) cs u = u
  walk-IsDistinct (sentinel s) cs u = u
  walk-IsDistinct (code d) cs u = add_code-IsDistinct d cs u
  walk-IsDistinct (coded d e) cs u = walk-IsDistinct e (add_code d cs) (add_code-IsDistinct d cs u)
  walk-IsDistinct (remote d t) cs u = add_code-IsDistinct d cs u
  walk-IsDistinct (wrap before e after) cs u = walk-IsDistinct e cs u
  walk-IsDistinct (discard e) cs u = walk-IsDistinct e cs u
  walk-IsDistinct (joined es) cs u = walk_all-IsDistinct es cs u

  walk_all-IsDistinct :
      (es : GoErrors) (cs : List Code) → IsDistinct cs → IsDistinct (walk_all es cs)
  walk_all-IsDistinct no_errors cs u = u
  walk_all-IsDistinct (also e es) cs u = walk_all-IsDistinct es (walk e cs) (walk-IsDistinct e cs u)

-- The code is in the list, and no other is.
abbrev IsOnly : Code → List Code → Type 0
IsOnly c cs = In c cs × ((d : Code) → In d cs → d ≡ c)

sole_iff : (c : Code) (cs : List Code) → IsDistinct cs → (sole cs ≡ some c) ↔ IsOnly c cs
unfolding holds_code
sole_iff c [] u = ground arith
sole_iff c (d ∷ []) u = ground arith
sole_iff c (d ∷ e ∷ ds) u =
    (λ h. ground arith, λ p. ground (arith, p.1 d (inl refl), p.1 e (inr (inl refl))))

walk_nil_iff : (c : Code) (e : GoError) → In c (walk e []) ↔ Reaches c e
walk_nil_iff c e = ground (arith, walk_iff c e [])

-- CodeOf gives a code exactly when the code is reached in the tree of errors and every code that is
-- reached is that one.
pub code_of_iff :
    (e : GoError) (c : Code)
    → (code_of e ≡ some c) ↔ (Reaches c e × ((d : Code) → Reaches d e → d ≡ c))
unfolding code_of
code_of_iff e c =
    let s = sole_iff c (walk e []) (walk-IsDistinct e [] tt) in
    (
      λ h. ((walk_nil_iff c e).0 (s.0 h).0, λ d r. (s.0 h).1 d ((walk_nil_iff d e).1 r)),
      λ h. s.1 ((walk_nil_iff c e).1 h.0, λ d m. h.1 d ((walk_nil_iff d e).0 m)),
    )

-- The error, or a code before it.
abbrev Tagged : GoError → GoError → Type 0
Tagged e f = (f ≡ e) ⊎ ((c : Code) × (f ≡ coded c e))

if-Tagged :
    (b : Bool) (c : Code) (e f : GoError) → Tagged e f → Tagged e (if b then coded c e else f)
if-Tagged true c e f h = inr (c, refl)
if-Tagged false c e f h = h

classify-Tagged : (e : GoError) → Tagged e (classify e)
unfolding classify
classify-Tagged e = if-Tagged (is_error (a_sentinel node_dead) e) err_node_dead e _ (
    if-Tagged (is_error (a_sentinel runtime_closed) e || is_error (a_sentinel mail_closed) e)
      err_runtime_closed e _
      (if-Tagged (is_error (a_sentinel overloaded) e) err_overloaded e _ (
        if-Tagged (is_error (a_sentinel type_not_registered) e) err_type_not_installed e _ (
          if-Tagged (is_error (a_sentinel conflict) e) err_persistence_conflict e _ (
            if-Tagged (is_error (a_sentinel panicked) e) err_panic e _
              (if-Tagged (is_error (a_sentinel call_cycle) e) err_call_cycle e e (inl refl)))))))

-- It keeps the error, or puts a code before an error that has no determined one.
record Added (e : GoError) : Type 0 where
  c : Code
  added : public_error e ≡ coded c e
  undetermined : code_of e ≡ none
  some_error : is_nil e ≡ false

not_nil : (e : GoError) → is_kept e ≡ false → is_nil e ≡ false
unfolding is_kept
not_nil e k = ground arith

public_error_cases : (e : GoError) → (public_error e ≡ e) ⊎ Added e
unfolding public_error
public_error_cases e = elim (Bool-cases (is_kept e)) [
  | inl k ↦ inl (rw k refl)
  | inr k ↦ elim (Option-cases (code_of e)) [
    | inl n ↦ elim (classify-Tagged e) [
      | inl h ↦ inl (rw (k, n) h)
      | inr (c, h) ↦
          inr (record { c = c; added = rw (k, n) h; undetermined = n; some_error = not_nil e k })
    ]
    | inr (c, s) ↦ inl (rw (k, s) refl)
  ]
]

pub is_nil-public_error : (e : GoError) → is_nil (public_error e) ≡ is_nil e
is_nil-public_error e = elim (public_error_cases e) [
  | inl h ↦ ap is_nil h
  | inr a ↦ rw (a.added, a.some_error) refl
]

pub message-public_error : (e : GoError) → message (public_error e) ≡ message e
unfolding message
message-public_error e = elim (public_error_cases e) [
  | inl h ↦ ap message h
  | inr a ↦ rw (a.added, a.some_error) refl
]

-- publicError keeps the text of the error and each code and sentinel that it matches, and the code of an
-- error that has a determined one.
public_error_keeps :
    (e : GoError)
    → (message (public_error e) ≡ message e)
      × ((t : Target) → is_error t e ≡ true → is_error t (public_error e) ≡ true)
      × ((c : Code) → code_of e ≡ some c → code_of (public_error e) ≡ some c)
unfolding is_error
public_error_keeps e = elim (public_error_cases e) [
  | inl h ↦ (message-public_error e, λ t m. rw h m, λ c d. rw h d)
  | inr a ↦ (
    message-public_error e,
    λ t m. rw a.added (ground arith),
    λ c d. ground (arith, a.undetermined),
  )
]

code_of-coded_none :
    (f : GoError) (b c : Code) → Reaches b f → code_of f ≡ none → code_of (coded c f) ≡ none
code_of-coded_none f b c r n = elim (Option-cases (code_of (coded c f))) [
  | inl h ↦ h
  | inr (d, h) ↦
      let only = ((code_of_iff (coded c f) d).0 h).1 in
      cc (
        n,
        (code_of_iff f d).1 (subst (λ x. Reaches x f) (only b (inr r)) r, λ a q. only a (inr q)),
      )
]

-- publicError on the way out, where the call's error has already been through it, changes nothing of
-- the envelope that crosses the network, even for an error with several codes.
pub error_envelope_for-public_error :
    (e : GoError)
    → error_envelope_for (public_error (public_error e)) ≡ error_envelope_for (public_error e)
unfolding error_envelope_for message
error_envelope_for-public_error e = elim (public_error_cases e) [
  | inl h ↦ ap (λ x. error_envelope_for (public_error x)) h
  | inr a ↦ elim (public_error_cases (coded a.c e)) [
    | inl h ↦ rw (a.added, h) refl
    | inr b ↦
        rw
          (
            a.added,
            b.added,
            b.undetermined,
            code_of-coded_none (coded a.c e) a.c b.c (inl refl) b.undetermined,
          )
          refl
  ]
]

-- What the caller makes of an error on the other node: its text, its determined code, if it has one, and
-- no sentinel and no other code.
pub record Received (e r : GoError) : Type 0 where
  pub same_text : message r ≡ message e
  pub same_code : code_of r ≡ code_of e
  pub is_code_iff : (c : Code) → (is_error (a_code c) r ≡ true) ↔ (code_of e ≡ some c)
  pub no_sentinel : (s : Sentinel) → is_error (a_sentinel s) r ≡ false
  pub not_nil : is_nil r ≡ false

opaque_received :
    (e : GoError)
    → is_nil e ≡ false
    → code_of e ≡ none
    → error_from_envelope (error_envelope_for e) ≡ opaque (message e)
unfolding error_envelope_for error_from_envelope Text-discrete
opaque_received e some_error n = rw (some_error, n) refl

remote_received :
    (e : GoError) (c : Code)
    → is_nil e ≡ false
    → code_of e ≡ some c
    → c ≢ []
    → error_from_envelope (error_envelope_for e) ≡ remote c (message e)
unfolding error_envelope_for error_from_envelope
remote_received e c some_error h n = rw (some_error, h) (if_neg (Text-discrete c []) n _ _)

pub error_from_envelope_lem :
    (e : GoError)
    → is_nil e ≡ false
    → code_of e ≢ some []
    → Received e (error_from_envelope (error_envelope_for e))
unfolding message is_error code_of walk add_code
error_from_envelope_lem e some_error not_empty = elim (Option-cases (code_of e)) [
  | inl n ↦ rw (opaque_received e some_error n) (record {
    same_text = refl;
    same_code = sym n;
    is_code_iff = λ c. ground (arith, n);
    no_sentinel = λ s. refl;
    not_nil = refl;
  })
  | inr (c, h) ↦ rw (remote_received e c some_error h (λ z. not_empty (h ∙ ap some z))) (record {
    same_text = refl;
    same_code = sym h;
    is_code_iff = λ d. ground (arith, h);
    no_sentinel = λ s. refl;
    not_nil = refl;
  })
]
