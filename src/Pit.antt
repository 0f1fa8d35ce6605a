-- ===== src/Pit.antt =====
-- kernel/pit.c: the timer's set-up and its interrupt handler, which yields and acknowledges.
pub mod Ticks
mod Tests
use lons_os.Base.{ℕ, zero, suc, ◌+◌, ◌*◌, ◌/◌, ◌%◌, Option, none, some, ltb, ◌==◌, if◌then◌else◌}
use lons_os.Machine.{u64, u16}
use lons_os.Machine.Ports.{Ports}
use lons_os.Pic.{pic_send_eoi}
use lons_os.Sched.{Sched, sched_yield}

abbrev pub pit_hz : ℕ
pit_hz = 100

abbrev pub pit_base_freq : ℕ
pit_base_freq = 1193182

-- `pit_ticks`, and the tasks that the handler switches.
pub record Pit : Type 0 where
  pub pit_ticks : ℕ
  pub sched : Sched

module _ {D : Type 0} (io : Ports D) where
  unfoldable pub pit_init : Pit → D → Pit × D
  pit_init p d =
      let divisor = u16 (pit_base_freq / pit_hz) in
      let d1 = io.outb 0x43 0x36 d in
      let d2 = io.outb 0x40 (divisor % 256) d1 in
      let d3 = io.outb 0x40 (divisor / 256 % 256) d2 in (record p { pit_ticks = 0 }, d3)

  -- Also `pit_irq_handler`, which only calls it.
  unfoldable pub pit_handler : Pit → D → Pit × D
  pit_handler p d =
      let ticks = u64 (p.pit_ticks + 1) in
      let sched = if ticks % 10 == 0 then sched_yield p.sched else p.sched in
      (record { pit_ticks = ticks; sched = sched }, pic_send_eoi io 0 d)

abbrev pub pit_get_ticks : Pit → ℕ
pit_get_ticks p = p.pit_ticks

abbrev pub pit_get_seconds : Pit → ℕ
pit_get_seconds p = p.pit_ticks / pit_hz

-- The tick that `pit_sleep_ms` waits for.
unfoldable pub sleep_target : ℕ → Pit → ℕ
sleep_target ms p = u64 (p.pit_ticks + u64 (ms * pit_hz) / 1000)

-- The wait: what each `hlt` returns with is a count of ticks that have come, taken from `wakes`;
-- `none` if they do not suffice within the fuel.
unfoldable pub sleep_loop : ℕ → (ℕ → Pit → Pit) → ℕ → Pit → Option Pit
sleep_loop zero wakes target p = none
sleep_loop (suc fuel) wakes target p =
    let later = sleep_loop fuel wakes target (wakes fuel p) in
    if ltb p.pit_ticks target then later else some p

unfoldable pub pit_sleep_ms : ℕ → (ℕ → Pit → Pit) → ℕ → Pit → Option Pit
pit_sleep_ms fuel wakes ms p = sleep_loop fuel wakes (sleep_target ms p) p
