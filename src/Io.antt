-- ===== src/Io.antt =====
-- What the kernel shows to the outside: bytes written to I/O ports (`outportb` of
-- src/kernel/x86.c) and text printed by `kprintf`, as a trace, oldest first.
use janus.Base.{ℕ, List}

pub data Event : Type 0 where
  outb : (port val : ℕ) → Event
  print : List ℕ → Event

abbrev pub Trace : Type 0
Trace = List Event
