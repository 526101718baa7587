-- ===== src/Sched.antt =====
-- src/kernel/sched.c: the clock and the round-robin queue of tasks. The globals are a record; an
-- operation that would index outside `rrq` returns `none`.
pub mod Clock
pub mod Queue
pub mod Rounds
pub mod Create
mod Tests
use janus.Base.{
  ℕ, zero, suc, ◌+◌, ◌-◌, ◌%◌, ◌^◌, Bool, true, false, Option, none, some, List, [], ◌∷◌, ◌++◌, ltb,
  leb, ◌==◌, if◌then◌else◌, get_elem?, set, length, replicate, ◌>>=◌,
}
use janus.Io.{Event, outb, print, Trace}
use janus.Str.Copy.{copied}

abbrev pub que_size : ℕ
que_size = 128

-- `stack_data_t`
pub record Frame : Type 0 where
  pub gs : ℕ
  pub fs : ℕ
  pub es : ℕ
  pub ds : ℕ
  pub edi : ℕ
  pub esi : ℕ
  pub ebp : ℕ
  pub esp : ℕ
  pub ebx : ℕ
  pub edx : ℕ
  pub ecx : ℕ
  pub eax : ℕ
  pub eip : ℕ
  pub cs : ℕ
  pub eflags : ℕ

-- `task_data_t`; `name` is the 33 bytes of the array.
pub record Task : Type 0 where
  pub name : List ℕ
  pub stack : ℕ
  pub ss : ℕ
  pub kstack : ℕ
  pub ustack : ℕ
  pub time : ℕ
  pub priority : ℕ

-- `front`, `end` and `rrq`, the frames written through `stack` pointers, newest first, and the
-- trace of what was printed and sent to ports.
pub record Sched : Type 0 where
  pub front : ℕ
  pub end : ℕ
  pub rrq : List Task
  pub frames : List (ℕ × Frame)
  pub trace : Trace

abbrev pub blank_task : Task
blank_task = record {
  name = replicate 33 0;
  stack = 0;
  ss = 0;
  kstack = 0;
  ustack = 0;
  time = 0;
  priority = 0;
}

-- The clock's counters, `unsigned int`.
pub record Ticks : Type 0 where
  pub ticks : ℕ
  pub sys_time : ℕ
  pub total_ticks : ℕ

pub clock : Ticks → Ticks
clock c =
    let t = (c.ticks + 1) % 2 ^ 32 in
    let total = (c.total_ticks + 1) % 2 ^ 32 in
    if leb 100 t
    then record { ticks = 0; sys_time = (c.sys_time + 1) % 2 ^ 32; total_ticks = total }
    else record { ticks = t; sys_time = c.sys_time; total_ticks = total }

pub is_empty : Sched → Bool
is_empty s = s.end == s.front

time_of : Option Task → Option ℕ
time_of none = none
time_of (some t) = some t.time

priority_of : Option Task → Option ℕ
priority_of none = none
priority_of (some t) = some t.priority

pub cur_task_time : Sched → Option ℕ
unfolding is_empty time_of
cur_task_time s = if is_empty s then some 0 else time_of (get_elem? s.rrq s.front)

pub cur_task_pri : Sched → Option ℕ
unfolding is_empty priority_of
cur_task_pri s = if is_empty s then some 0 else priority_of (get_elem? s.rrq s.front)

-- `rrq[i] = t`
abbrev pub put : Sched → ℕ → Task → Option Sched
put s i t = if ltb i (length s.rrq) then some (record s { rrq = set s.rrq i t }) else none

abbrev pub wrap : ℕ → ℕ
wrap i = if leb que_size i then 0 else i

advance : Option Sched → Option Sched
advance none = none
advance (some s) = some (record s { end = wrap (s.end + 1); front = wrap (s.front + 1) })

move_front : Sched → Option Task → Option Sched
unfolding advance
move_front s none = none
move_front s (some t) = advance (put s s.end t)

pub front_to_end : Sched → Option Sched
unfolding is_empty move_front
front_to_end s = if is_empty s then some s else move_front s (get_elem? s.rrq s.front)

-- `rrq[front].time = f(rrq[front].time)`
set_time : Sched → (ℕ → ℕ) → Option Task → Option Sched
set_time s f none = none
set_time s f (some t) = put s s.front (record t { time = f t.time })

pub dec_cur_task_time : Sched → Option Sched
unfolding is_empty set_time
dec_cur_task_time s =
    if is_empty s
    then some s
    else set_time s (λ t. (t + 2 ^ 32 - 1) % 2 ^ 32) (get_elem? s.rrq s.front)

pub cur_task_time_equ : Sched → ℕ → Option Sched
unfolding is_empty set_time
cur_task_time_equ s time =
    if is_empty s then some s else set_time s (λ _. time) (get_elem? s.rrq s.front)

pub get_pri_time : ℕ → ℕ
get_pri_time pri =
    if pri == 0
    then 100
    else if pri == 1
    then 10
    else if pri == 2
    then 5
    else if pri == 3
    then 2
    else if pri == 4
    then 1
    else 0

stack_of : Sched → Option Task → Option (ℕ × Sched)
stack_of s none = none
stack_of s (some t) = some (t.stack, s)

-- "schedule", as `kprintf` is given it.
abbrev pub schedule_text : List ℕ
schedule_text = 115 ∷ 99 ∷ 104 ∷ 101 ∷ 100 ∷ 117 ∷ 108 ∷ 101 ∷ []

-- The argument `regs` of the source, the interrupted task's stack, is not used there.
pub schedule : Sched → (regs : ℕ) → Option (ℕ × Sched)
unfolding stack_of
schedule s regs = do
  let s0 = record s { trace = s.trace ++ print schedule_text ∷ [] }
  pri ← cur_task_pri s0
  s1 ← cur_task_time_equ s0 (get_pri_time pri)
  s2 ← front_to_end s1
  stack_of s2 (get_elem? s2.rrq s2.front)

-- `clock`, the end-of-interrupt byte to port 0x20, then `schedule`.
pub task_timer_c : Ticks → Sched → (regs : ℕ) → Option (Ticks × ℕ × Sched)
task_timer_c c s regs = do
  let s0 = record s { trace = s.trace ++ outb 0x20 0x20 ∷ [] }
  (stack, s1) ← schedule s0 regs
  some (clock c, stack, s1)

-- `strncpy(rrq[end].name, name, 32)`: the bytes copied lie over the first of the array.
pub overlay : List ℕ → List ℕ → List ℕ
overlay [] old = old
overlay (x ∷ xs) [] = []
overlay (x ∷ xs) (y ∷ ys) = x ∷ overlay xs ys

-- `sizeof(stack_data_t)` is 60 and STACK_SIZE 256.
pub first_frame : (stack entry : ℕ) → Frame
first_frame stack entry = record {
  gs = 0x10;
  fs = 0x10;
  es = 0x10;
  ds = 0x10;
  edi = 0;
  esi = 0;
  ebp = stack;
  esp = stack;
  ebx = 0;
  edx = 0;
  ecx = 0;
  eax = 0;
  eip = entry;
  cs = 0x8;
  eflags = 0x202;
}

pub new_task : (pri : ℕ) → List ℕ → (stack : ℕ) → Task → Task
unfolding overlay get_pri_time copied
new_task pri name stack old = record old {
  name = overlay (copied 32 name) old.name;
  stack = stack;
  ss = 0x10;
  priority = pri;
  time = get_pri_time pri;
}

fill_slot : Sched → (pri : ℕ) → List ℕ → (stack entry : ℕ) → Option Task → Option Sched
unfolding new_task first_frame
fill_slot s pri name stack entry none = none
fill_slot s pri name stack entry (some old) = do
  s' ← put s s.end (new_task pri name stack old)
  some (record s' { end = s'.end + 1; frames = (stack, first_frame stack entry) ∷ s'.frames })

-- `stack_mem` is what `kmalloc(STACK_SIZE)` returned, which the source does not test for NULL.
pub make_task : Sched → (stack_mem pri : ℕ) → List ℕ → (entry : ℕ) → Option Sched
unfolding fill_slot
make_task s stack_mem pri name entry =
    fill_slot s pri name (stack_mem + (256 - 60)) entry (get_elem? s.rrq s.end)

-- Up to the interrupt that starts the first task. `m0` and `m1` are the two blocks allocated,
-- `e0` and `e1` the addresses of `task0` and `task1`.
pub start_sys : Sched → (m0 m1 e0 e1 : ℕ) → Option Sched
unfolding make_task
start_sys s m0 m1 e0 e1 = do
  s1 ← make_task (record s { front = 0; end = 0 }) m0 3 (116 ∷ 97 ∷ 115 ∷ 107 ∷ 48 ∷ []) e0
  make_task s1 m1 3 (116 ∷ 97 ∷ 115 ∷ 107 ∷ 49 ∷ []) e1
