-- ===== src/Sched/Tests.antt =====
-- A run of the scheduler on two tasks.
use lons_os.Base.{◌==◌, if◌then◌else◌}
use lons_os.Sched.{Sched, yields}
use lons_os.Sched.Saved.{SavesNoOther, yields-SavesNoOther}

abbrev two_tasks : Sched
two_tasks = record {
  tasks = λ a.
      if a == 100
      then record { rsp = 4096; kstack_top = 4096; state = 1; next = 200 }
      else record { rsp = 8192; kstack_top = 8192; state = 0; next = 100 };
  current_task = 100;
  task_list = 100;
  cpu = record {
    stack = λ a. 7;
    rsp = 4000;
    rbp = 1;
    rbx = 2;
    r12 = 3;
    r13 = 4;
    r14 = 5;
    r15 = 6;
    rip = 0;
  };
}

yields-SavesNoOther_example : SavesNoOther two_tasks (yields 2 two_tasks)
yields-SavesNoOther_example = yields-SavesNoOther 2 two_tasks
