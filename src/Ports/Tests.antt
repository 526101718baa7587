-- ===== src/Ports/Tests.antt =====
-- x86.c on concrete reads.
use janus.Base.{◌≡◌, refl, some, [], ◌∷◌}
use janus.Io.{outb}
use janus.Ports.{reboot}

reboot_run : reboot (3 ∷ 2 ∷ 1 ∷ 3 ∷ []) ≡ some (2, outb 0x64 0xfe ∷ [])
unfolding reboot
reboot_run = refl
