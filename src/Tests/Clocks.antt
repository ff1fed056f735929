-- ===== src/Tests/Clocks.antt =====
-- A fake clock with one ticker that is overdue.
use gor.Prelude.{none, some, [], ◌∷◌, ◌≡◌, pos, ◌+ℤ◌, arith}
use gor.Clock.{Fake, Ticker, advance}
use gor.Clock.Advance.{AllTicked, Enough, advance_lem}

abbrev ticker : Ticker
ticker = record { interval = 10; next = pos 15; channel = none }

abbrev clock : Fake
clock = record { now = pos 5; tickers = (3, ticker) ∷ [] }

fuel-Enough : Enough 40 (clock.now +ℤ pos 32) (3, ticker)
unfolding ◌+ℤ◌
fuel-Enough = (omega arith, omega arith, omega arith)

advance_lem_example :
    (f' : Fake) × (advance 40 (pos 32) clock ≡ some f')
    × (f'.now ≡ clock.now +ℤ pos 32)
    × AllTicked (clock.now +ℤ pos 32) clock.tickers f'.tickers
advance_lem_example = advance_lem 40 (pos 32) clock (fuel-Enough, tt)
