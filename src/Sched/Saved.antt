-- ===== src/Sched/Saved.antt =====
-- Which tasks a yield saves.
use lons_os.Base.{ℕ, zero, suc, ◌≡◌, ◌≢◌, refl, ◌∙◌, ◌||◌, ◌==◌, if_elim, eq_false}
use lons_os.Sched.{Sched, context_switch, sched_yield, yields, task_ready, task_running}

-- The current task is the same, and the other tasks are as they were.
abbrev pub SavesNoOther : Sched → Sched → Type 0
SavesNoOther s t =
    (t.current_task ≡ s.current_task)
    × ((task : ℕ) → task ≢ s.current_task → t.tasks task ≡ s.tasks task)

sched_yield-SavesNoOther : (s : Sched) → SavesNoOther s (sched_yield s)
unfolding sched_yield context_switch
sched_yield-SavesNoOther s =
    let next = (s.tasks s.current_task).next in
    let state = (s.tasks next).state in
    if_elim (SavesNoOther s) (state == task_ready || state == task_running)
      (context_switch s.current_task next s) s
      (λ e. (refl, λ task ne. rw (eq_false task s.current_task ne) refl))
      (λ e. (refl, λ task ne. refl))

-- However often the processor is yielded, the current task stays the same one, and the stack
-- pointer of no other task is ever saved.
pub yields-SavesNoOther : (n : ℕ) (s : Sched) → SavesNoOther s (yields n s)
unfolding yields
yields-SavesNoOther zero s = (refl, λ task ne. refl)
yields-SavesNoOther (suc n) s =
    let once = sched_yield-SavesNoOther s in
    let more = yields-SavesNoOther n (sched_yield s) in
    (more.0 ∙ once.0, λ task ne. more.1 task (λ e. ne (e ∙ once.0)) ∙ once.1 task ne)
