-- ===== src/Clock/Advance.antt =====
-- What a ticker sees of Advance (clock/fake.go).
use gor.Prelude.{
  ℕ, zero, suc, ◌*◌, ◌<◌, Option, none, some, true, [], ◌∷◌, ◌≡◌, inl, inr, refl, sym, ap, ap₂, ◌∙◌,
  arith, leb_ℤ, ◌+ℤ◌, pos, ◌<ℤ◌, ◌≤ℤ◌, Map, Bool-cases, +ℤ_parts, eq_of_parts, All,
}
use gor.Store.{Time, Duration}
use gor.Clock.{Ticker, Fake, cross, send, crossed, advance_tickers, advance}

-- The deadline after `k` more intervals.
abbrev pub deadline : Time → ℕ → ℕ → Time
deadline next interval k = next +ℤ pos (k * interval)

-- The last deadline crossed, after `k` of them.
abbrev pub last : Option Time → Time → ℕ → ℕ → Option Time
last at next interval zero = at
last at next interval (suc k) = some (deadline next interval k)

deadline_next :
    (next : Time) (interval k : ℕ)
    → deadline (next +ℤ pos interval) interval k ≡ deadline next interval (suc k)
deadline_next next interval k = eq_of_parts _ _ (
    omega (
      arith,
      +ℤ_parts next (pos interval),
      +ℤ_parts (next +ℤ pos interval) (pos (k * interval)),
      +ℤ_parts next (pos (suc k * interval)),
    ))

deadline_zero : (next : Time) (interval : ℕ) → deadline next interval 0 ≡ next
deadline_zero next interval = eq_of_parts _ _ (omega (arith, +ℤ_parts next (pos (0 * interval))))

last_next :
    (next : Time) (interval k : ℕ)
    → last (some next) (next +ℤ pos interval) interval k ≡ last none next interval (suc k)
last_next next interval zero = ap some (sym (deadline_zero next interval))
last_next next interval (suc k) = ap some (deadline_next next interval k)

-- The result of the loop: it crosses all deadlines up to `end`, and no later one.
pub record Crossed (fuel interval : ℕ) (end : Time) (at : Option Time) (next : Time) : Type 0 where
  pub count : ℕ
  pub result :
      cross fuel interval end at next
      ≡ some (last at next interval count, deadline next interval count)
  pub after : end <ℤ deadline next interval count
  pub before : (k : ℕ) → k < count → deadline next interval k ≤ℤ end

cross-Crossed :
    (fuel interval : ℕ) (end : Time) (at : Option Time) (next : Time)
    → 0 < interval
    → 0 < fuel
    → end +ℤ pos 1 <ℤ next +ℤ pos fuel
    → Crossed fuel interval end at next
unfolding cross
cross-Crossed zero interval end at next i f e = absurd (omega arith)
cross-Crossed (suc fuel) interval end at next i f e = elim (Bool-cases (leb_ℤ next end)) [
  | inl le ↦
      let r =
        cross-Crossed fuel interval end (some next) (next +ℤ pos interval) i (more_fuel le)
          (nearer le) in
      record {
        count = suc r.count;
        result = rw le (
            r.result
            ∙ ap₂ (λ l n. some (l, n)) (last_next next interval r.count)
                (deadline_next next interval r.count));
        after = rw (← deadline_next next interval r.count) r.after;
        before = earlier le r.count r.before;
      }
  | inr gt ↦ record {
    count = 0;
    result = rw gt (ap (λ n. some (at, n)) (sym (deadline_zero next interval)));
    after = rw (deadline_zero next interval) (ground (arith, gt));
    before = λ k h. absurd (omega (arith, h));
  }
]
  where
    below : leb_ℤ next end ≡ true → next ≤ℤ end
    below le = ground (arith, le)

    more_fuel : leb_ℤ next end ≡ true → 0 < fuel
    more_fuel le = omega (arith, below le, e, +ℤ_parts end (pos 1), +ℤ_parts next (pos (suc fuel)))

    nearer : leb_ℤ next end ≡ true → end +ℤ pos 1 <ℤ (next +ℤ pos interval) +ℤ pos fuel
    nearer le = omega (
      arith,
      i,
      e,
      +ℤ_parts end (pos 1),
      +ℤ_parts next (pos (suc fuel)),
      +ℤ_parts next (pos interval),
      +ℤ_parts (next +ℤ pos interval) (pos fuel),
    )

    earlier :
        leb_ℤ next end ≡ true
        → (n : ℕ) → ((k : ℕ) → k < n → deadline (next +ℤ pos interval) interval k ≤ℤ end)
        → (k : ℕ) → k < suc n
        → deadline next interval k ≤ℤ end
    earlier le n r zero h = rw (deadline_zero next interval) (below le)
    earlier le n r (suc k) h = rw (← deadline_next next interval k) (r k (omega (arith, h)))

-- What Advance did to a ticker: it moved past the deadlines up to `end`, and the last of them is left
-- unread, unless an older tick is.
pub record Ticked (end : Time) (t t' : Ticker) : Type 0 where
  pub count : ℕ
  pub next : t'.next ≡ deadline t.next t.interval count
  pub after : end <ℤ t'.next
  pub before : (k : ℕ) → k < count → deadline t.next t.interval k ≤ℤ end
  pub unread : t'.channel ≡ send (last none t.next t.interval count) t.channel

abbrev pub AllTicked : Time → Map ℕ Ticker → Map ℕ Ticker → Type 0
AllTicked end [] [] = Unit
AllTicked end [] (y ∷ ys) = ⊥
AllTicked end (x ∷ xs) [] = ⊥
AllTicked end ((i, t) ∷ xs) ((j, t') ∷ ys) = (i ≡ j) × Ticked end t t' × AllTicked end xs ys

-- The fuel covers the way to `end`.
abbrev pub Enough : ℕ → Time → ℕ × Ticker → Type 0
Enough fuel end x = (0 < x.1.interval) × (0 < fuel) × (end +ℤ pos 1 <ℤ x.1.next +ℤ pos fuel)

advance_tickers-AllTicked :
    (fuel : ℕ) (end : Time) (ts : Map ℕ Ticker)
    → All (Enough fuel end) ts
    → (ts' : Map ℕ Ticker) × (advance_tickers fuel end ts ≡ some ts') × AllTicked end ts ts'
unfolding advance_tickers crossed
advance_tickers-AllTicked fuel end [] h = ([], refl, tt)
advance_tickers-AllTicked fuel end ((id, t) ∷ ts) h =
    let c = cross-Crossed fuel t.interval end none t.next h.0.0 h.0.1 h.0.2 in
    let (ts', e, all) = advance_tickers-AllTicked fuel end ts h.1 in
    let t' : Ticker = record t {
      next = deadline t.next t.interval c.count;
      channel = send (last none t.next t.interval c.count) t.channel;
    } in
    (
      (id, t') ∷ ts',
      rw (c.result, e, advance_tickers) refl,
      (
        refl,
        record { count = c.count; next = refl; after = c.after; before = c.before; unread = refl },
        all,
      ),
    )

-- With fuel that covers the way to the new time and positive intervals, Advance ends: the clock
-- shows the new time, and each ticker has moved by whole intervals past exactly the deadlines up to
-- that time, the last of which is left unread unless an older tick is.
pub advance_lem :
    (fuel : ℕ) (d : Duration) (f : Fake)
    → All (Enough fuel (f.now +ℤ d)) f.tickers
    → (f' : Fake) × (advance fuel d f ≡ some f')
      × (f'.now ≡ f.now +ℤ d)
      × AllTicked (f.now +ℤ d) f.tickers f'.tickers
unfolding advance
advance_lem fuel d f h =
    let (ts', e, all) = advance_tickers-AllTicked fuel (f.now +ℤ d) f.tickers h in
    (record { now = f.now +ℤ d; tickers = ts' }, rw (e, advance) refl, refl, all)
