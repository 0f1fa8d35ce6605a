-- ===== src/Pit/Ticks.antt =====
-- The ticks of the timer, and how long a sleep lasts.
use lons_os.Base.{
  ℕ, zero, suc, ◌+◌, ◌*◌, ◌/◌, ◌^◌, ◌≤◌, ◌<◌, ◌≡◌, subst, arith, Option, none, some, ltb, if_elim,
  ltb→lt,
}
use lons_os.Pit.{Pit, sleep_target, sleep_loop, pit_sleep_ms}

-- A sleep that ended: the tick it waited for has come.
abbrev pub Woke : ℕ → Option Pit → Type 0
Woke target none = ⊥
Woke target (some p) = target ≤ p.pit_ticks

sleep_loop-Woke :
    (fuel : ℕ) (wakes : ℕ → Pit → Pit) (target : ℕ) (p : Pit)
    → ((k : ℕ) (q : Pit) → q.pit_ticks + 1 < 2 ^ 64 → q.pit_ticks < (wakes k q).pit_ticks)
    → target < 2 ^ 64
    → 0 < fuel
    → target < p.pit_ticks + fuel
    → Woke target (sleep_loop fuel wakes target p)
unfolding sleep_loop
sleep_loop-Woke zero wakes target p up fits some_fuel enough = absurd (omega arith)
sleep_loop-Woke (suc fuel) wakes target p up fits some_fuel enough =
    if_elim (Woke target) (ltb p.pit_ticks target) _ _
      (λ e.
        sleep_loop-Woke fuel wakes target (wakes fuel p) up fits (omega (arith, ltb→lt _ _ e))
          (omega (arith, up fuel p (omega (arith, ltb→lt _ _ e)))))
      (λ e. ground arith)

-- If every wake-up at which the counter does not wrap brings ticks, a sleep of `ms` milliseconds ends within ms / 10 + 1 rounds, at least
-- ms / 10 ticks later, for counts that fit 64 bits.
pub pit_sleep_ms-Woke :
    (fuel : ℕ) (wakes : ℕ → Pit → Pit) (ms : ℕ) (p : Pit)
    → ((k : ℕ) (q : Pit) → q.pit_ticks + 1 < 2 ^ 64 → q.pit_ticks < (wakes k q).pit_ticks)
    → ms * 100 < 2 ^ 64
    → p.pit_ticks + ms / 10 < 2 ^ 64
    → ms / 10 < fuel
    → Woke (p.pit_ticks + ms / 10) (pit_sleep_ms fuel wakes ms p)
unfolding pit_sleep_ms sleep_target
pit_sleep_ms-Woke fuel wakes ms p up small fits enough =
    let at : sleep_target ms p ≡ p.pit_ticks + ms / 10 = omega arith in
    subst (λ t. Woke t (sleep_loop fuel wakes (sleep_target ms p) p)) at
      (sleep_loop-Woke fuel wakes (sleep_target ms p) p up (omega (arith, at)) (omega arith)
        (omega (arith, at)))
