-- ===== src/Ports.antt =====
-- src/kernel/x86.c, src/kernel/bootinfo.c and src/kernel/janus86.c: what is in them beside inline
-- assembly, which is outside. `inportb` gives a word whose low byte is the port's.
mod Tests
use janus.Base.{
  ℕ, zero, suc, ◌/◌, ◌%◌, Option, none, some, List, [], ◌∷◌, ◌++◌, ◌==◌, if◌then◌else◌, ◌>>=◌,
}
use janus.Io.{Event, outb, Trace}

-- The loop of `reboot`, which is given what port 0x64 reads: how often it reads port 0x60. `none`
-- is that the reads end first.
flush : (statuses : List ℕ) → Option ℕ
flush [] = none
flush (temp ∷ ts) =
    let taken : ℕ = if temp % 2 == 1 then 1 else 0 in
    let later = flush ts in
    if temp / 2 % 2 == 0
    then some taken
    else later >>= (λ n. some (if taken == 1 then suc n else n))

-- The reads of port 0x60, and the command that resets the computer.
pub reboot : (statuses : List ℕ) → Option (ℕ × Trace)
unfolding flush
reboot statuses = flush statuses >>= (λ n. some (n, outb 0x64 0xfe ∷ []))

-- `checkints` after `sti` and after `cli`.
pub sti : (checkints : ℕ) → ℕ
sti checkints = 1

pub cli : (checkints : ℕ) → ℕ
cli checkints = 0

-- The globals of `bootinfo.h`.
pub record MemInfo : Type 0 where
  pub mem_lower : ℕ
  pub mem_upper : ℕ

-- The two fields of `multiboot_info_t`.
pub set_mem_info : MemInfo → (lower upper : ℕ) → MemInfo
set_mem_info g lower upper = record { mem_lower = lower; mem_upper = upper }

-- The calls of `k_main`, in order; behind the shell it loops for ever.
pub data Call : Type 0 where
  clear_screen : Call
  init_memory : Call
  init_modules : Call
  probe_drives : Call
  read_partitions : Call
  shell : Call

pub k_main : List Call
k_main = clear_screen ∷ init_memory ∷ init_modules ∷ probe_drives ∷ read_partitions ∷ shell ∷ []
