-- ===== src/Pit/Tests.antt =====
-- A run of a sleep.
use lons_os.Base.{ℕ, ◌+◌, ◌^◌, ◌<◌, ◌/◌, arith}
use lons_os.Pit.{Pit, pit_handler, pit_sleep_ms}
use lons_os.Machine.Ports.{registers}
use lons_os.Pit.Ticks.{Woke, pit_sleep_ms-Woke}

-- The timer's handler runs once between two looks at the counter.
abbrev one_tick : ℕ → Pit → Pit
one_tick k p = (pit_handler registers p (λ port. 0)).0

one_tick-up : (k : ℕ) (q : Pit) → q.pit_ticks + 1 < 2 ^ 64 → q.pit_ticks < (one_tick k q).pit_ticks
unfolding pit_handler
one_tick-up k q h = omega arith

abbrev at_seven : Pit
at_seven = record {
  pit_ticks = 7;
  sched = record {
    tasks = λ a. record { rsp = 0; kstack_top = 0; state = 1; next = 1 };
    current_task = 1;
    task_list = 1;
    cpu = record {
      stack = λ a. 0;
      rsp = 4096;
      rbp = 0;
      rbx = 0;
      r12 = 0;
      r13 = 0;
      r14 = 0;
      r15 = 0;
      rip = 0;
    };
  };
}

pit_sleep_ms-Woke_example : Woke (7 + 50 / 10) (pit_sleep_ms 6 one_tick 50 at_seven)
pit_sleep_ms-Woke_example =
    pit_sleep_ms-Woke 6 one_tick 50 at_seven one_tick-up (omega arith) (omega arith) (omega arith)
