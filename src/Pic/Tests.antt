-- ===== src/Pic/Tests.antt =====
-- 8259.c on concrete masks.
use janus.Base.{◌≡◌, refl, [], ◌∷◌}
use janus.Io.{outb}
use janus.Pic.{Pic, enable_irq}

abbrev start : Pic
start = record { irq_mask = 0xffff; trace = [] }

enable_clock :
    enable_irq start 0 ≡ record { irq_mask = 0xfffe; trace = outb 0x21 0xfe ∷ outb 0xa1 0xff ∷ [] }
unfolding enable_irq
enable_clock = refl
