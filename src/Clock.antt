-- ===== src/Clock.antt =====
-- The fake clock of clock/fake.go. A ticker is named by a number; its channel holds one unread tick.
pub mod Advance
use gor.Prelude.{
  ℕ, zero, suc, ◌+◌, Option, none, some, Bool, true, false, List, [], ◌∷◌, if◌then◌else◌, leb_ℤ,
  ◌+ℤ◌, pos, pos_part, ℕ_discrete, Map, put, delete,
}
use gor.Store.{Time, Duration}

pub record Ticker : Type 0 where
  pub interval : ℕ
  pub next : Time
  pub channel : Option Time

pub record Fake : Type 0 where
  pub now : Time
  pub tickers : Map ℕ Ticker

-- NewTicker under a number that is not in use; none is the panic.
unfoldable pub new_ticker : ℕ → Duration → Fake → Option Fake
new_ticker id interval f =
    if leb_ℤ interval (pos 0)
    then none
    else some (record f {
      tickers =
          put ℕ_discrete id
            (record { interval = pos_part interval; next = f.now +ℤ interval; channel = none })
            f.tickers;
    })

-- Stop
unfoldable pub stop : ℕ → Fake → Fake
stop id f = record f { tickers = delete ℕ_discrete id f.tickers }

-- The inner loop of Advance: the last deadline passed, and the next one. none: the fuel ran out.
unfoldable pub cross : ℕ → ℕ → Time → Option Time → Time → Option (Option Time × Time)
cross zero interval end at next = none
cross (suc fuel) interval end at next =
    let rest = cross fuel interval end (some next) (next +ℤ pos interval) in
    if leb_ℤ next end then rest else some (at, next)

-- The send that does not block.
abbrev pub send : Option Time → Option Time → Option Time
send none channel = channel
send (some at) none = some at
send (some at) (some unread) = some unread

unfoldable pub crossed : Ticker → Option (Option Time × Time) → Option Ticker
crossed t none = none
crossed t (some (at, next)) = some (record t { next = next; channel = send at t.channel })

-- The outer loop, with the deliveries.
unfoldable pub advance_tickers : ℕ → Time → Map ℕ Ticker → Option (Map ℕ Ticker)
advance_tickers fuel end [] = some []
advance_tickers fuel end ((id, t) ∷ ts) =
    let rest = advance_tickers fuel end ts in
    elim (crossed t (cross fuel t.interval end none t.next)) [
      | none ↦ none
      | some t' ↦ elim rest [ none ↦ none | some ts' ↦ some ((id, t') ∷ ts') ]
    ]

-- Advance
unfoldable pub advance : ℕ → Duration → Fake → Option Fake
advance fuel d f = elim (advance_tickers fuel (f.now +ℤ d) f.tickers) [
  | none ↦ none
  | some ts ↦ some (record { now = f.now +ℤ d; tickers = ts })
]
