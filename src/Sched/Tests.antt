-- ===== src/Sched/Tests.antt =====
-- sched.c on concrete queues.
use janus.Base.{◌+◌, ◌≡◌, refl, some, [], ◌∷◌, arith, replicate, map}
use janus.Sched.{Sched, Task, blank_task, front_to_end, schedule, make_task, new_task}
use janus.Sched.Queue.{IsValid, contents, rotate, front_to_end-rotate}
use janus.Sched.Rounds.{turn, first_stack, refresh, schedules, schedule_lem, schedules_round}
use janus.Sched.Create.{make_task-append}

abbrev task_a : Task
task_a = record blank_task { stack = 1000; priority = 3; time = 1 }

abbrev task_b : Task
task_b = record blank_task { stack = 2000; priority = 1; time = 10 }

abbrev two : Sched
two = record {
  front = 0;
  end = 2;
  rrq = task_a ∷ task_b ∷ replicate 126 blank_task;
  frames = [];
  trace = [];
}

-- The queue goes round the end of the array.
abbrev late : Sched
late = record two { front = 126; end = 127 }

two-IsValid : IsValid two
two-IsValid = record { front_in = omega arith; end_in = omega arith; size = refl }

late-IsValid : IsValid late
late-IsValid = record { front_in = omega arith; end_in = omega arith; size = refl }

front_to_end-rotate_example :
    (s' : Sched) × (front_to_end two ≡ some s')
    × IsValid s'
    × (contents s' ≡ rotate (task_a ∷ task_b ∷ []))
front_to_end-rotate_example = front_to_end-rotate two two-IsValid

schedule_lem_example :
    (s' : Sched) × (schedule two 7 ≡ some (first_stack (turn (task_a ∷ task_b ∷ [])), s'))
    × IsValid s'
    × (contents s' ≡ turn (task_a ∷ task_b ∷ []))
schedule_lem_example = schedule_lem two 7 two-IsValid (λ e. cc)

schedules_round_example :
    (s' : Sched) × (schedules 2 two 7 ≡ some (2000 ∷ 1000 ∷ [], s'))
    × IsValid s'
    × (contents s' ≡ map refresh (task_a ∷ task_b ∷ []))
schedules_round_example = schedules_round two 7 two-IsValid

make_task-append_example :
    (s' : Sched) × (make_task two 4096 3 (65 ∷ []) 9 ≡ some s')
    × IsValid s'
    × (contents s' ≡ task_a ∷ task_b ∷ new_task 3 (65 ∷ []) (4096 + 196) blank_task ∷ [])
make_task-append_example =
    make_task-append two 4096 3 (65 ∷ []) 9 two-IsValid (omega arith) (omega arith)
