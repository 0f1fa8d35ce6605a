-- ===== src/Sched.antt =====
-- kernel/sched.c and kernel/context_switch.S: the ring of tasks and the switch of contexts. A task
-- is kept by its heap address; the stacks are 64-bit words by address.
pub mod Saved
mod Tests
use lons_os.Base.{ℕ, zero, suc, ◌+◌, Bool, ◌||◌, ◌==◌, if◌then◌else◌}
use lons_os.Machine.{u64, sub64, write}
use lons_os.Heap.{Heap, Run, ok, ◌>>=◌, kmalloc}

abbrev pub task_ready : ℕ
task_ready = 0

abbrev pub task_running : ℕ
task_running = 1

-- `task_t`.
pub record Task : Type 0 where
  pub rsp : ℕ
  pub kstack_top : ℕ
  pub state : ℕ
  pub next : ℕ

-- What `context_switch` works on: the stacks, the callee-saved registers, and the address that
-- `ret` goes to.
pub record Cpu : Type 0 where
  pub stack : ℕ → ℕ
  pub rsp : ℕ
  pub rbp : ℕ
  pub rbx : ℕ
  pub r12 : ℕ
  pub r13 : ℕ
  pub r14 : ℕ
  pub r15 : ℕ
  pub rip : ℕ

pub record Sched : Type 0 where
  pub tasks : ℕ → Task
  pub current_task : ℕ
  pub task_list : ℕ
  pub cpu : Cpu

unfoldable pub push : ℕ → Cpu → Cpu
push value c = let at = sub64 c.rsp 8 in record c { stack = write c.stack at value; rsp = at }

unfoldable pub top : Cpu → ℕ
top c = c.stack c.rsp

unfoldable pub drop_top : Cpu → Cpu
drop_top c = record c { rsp = u64 (c.rsp + 8) }

-- The six pushes, and the six pops and `ret`.
unfoldable pub save : Cpu → Cpu
save c = push c.r15 (push c.r14 (push c.r13 (push c.r12 (push c.rbx (push c.rbp c)))))

unfoldable pub restore : Cpu → Cpu
restore c0 =
    let c1 = drop_top (record c0 { r15 = top c0 }) in
    let c2 = drop_top (record c1 { r14 = top c1 }) in
    let c3 = drop_top (record c2 { r13 = top c2 }) in
    let c4 = drop_top (record c3 { r12 = top c3 }) in
    let c5 = drop_top (record c4 { rbx = top c4 }) in
    let c6 = drop_top (record c5 { rbp = top c5 }) in drop_top (record c6 { rip = top c6 })

unfoldable pub context_switch : ℕ → ℕ → Sched → Sched
context_switch prev next s =
    let saved = save s.cpu in
    let tasks = write s.tasks prev (record (s.tasks prev) { rsp = saved.rsp }) in
    record s { tasks = tasks; cpu = restore (record saved { rsp = (tasks next).rsp }) }

-- `sizeof(task_t)` is 32.
unfoldable pub sched_init : Heap → Sched → Run (Heap × Sched)
sched_init k s = kmalloc 32 k >>= λ (task, k'). ok (
  k',
  record s {
    tasks = write s.tasks task (record (s.tasks task) { state = task_running; next = task });
    current_task = task;
    task_list = task;
  },
)

unfoldable pub sched_yield : Sched → Sched
sched_yield s =
    let prev = s.current_task in
    let next = (s.tasks prev).next in
    let state = (s.tasks next).state in
    if state == task_ready || state == task_running then context_switch prev next s else s

-- `n` yields, one after the other.
unfoldable pub yields : ℕ → Sched → Sched
yields zero s = s
yields (suc n) s = yields n (sched_yield s)
