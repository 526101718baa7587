-- ===== src/Paging/Mapped.antt =====
-- The directory and the tables that `page_init` leaves, and what they map.
use janus.Base.{
  ℕ, ◌+◌, ◌-◌, ◌*◌, ◌/◌, ◌%◌, ◌^◌, ◌≤◌, ◌<◌, ◌≡◌, refl, ◌∙◌, ap, arith, ◌==◌, if◌then◌else◌, Option,
  none, some,
}
use janus.Paging.{
  Words, fill, pad, build, page_init, page_table_addr, pg_dir_entry, pg_table_entry, pg_tables,
  pg_frames,
}
use janus.Paging.Fill.{fill_end, fill_below, fill_at, pad_end, pad_below, pad_at}

module _ (t f : ℕ) (m : Words) (ht : 0 < t) (ht' : t < 1024) (hf : f % 1024 ≡ 0) where
  m1 : Words
  m1 = (fill t m page_table_addr pg_dir_entry).0

  m2 : Words
  m2 = (pad 1025 m1 (page_table_addr + 4 * t)).0

  m3 : Words
  m3 = (fill f m2 (page_table_addr + 4096) pg_table_entry).0

  pad_first : (pad 1025 m1 (page_table_addr + 4 * t)).1 ≡ page_table_addr + 4096
  pad_first =
      pad_end (1024 - t) 1025 m1 (page_table_addr + 4 * t) (page_table_addr + 4096) (omega arith)
        refl (omega arith) (omega arith)

  build_eq : build t f m ≡ (pad 1025 m3 (page_table_addr + 4096 + 4 * f)).0
  unfolding build m1 m2 m3
  build_eq = rw (
    fill_end t m page_table_addr pg_dir_entry,
    pad_first,
    fill_end f m2 (page_table_addr + 4096) pg_table_entry,
    build,
  )

  build_at : (a : ℕ) → a < page_table_addr + 4096 + 4 * f → build t f m a ≡ m3 a
  build_at a h =
      ap (λ (w : Words). w a) build_eq ∙ pad_below 1025 m3 (page_table_addr + 4096 + 4 * f) a h

  -- An entry of the directory.
  build_dir :
      (k : ℕ) → k < t → build t f m (page_table_addr + 4 * k) ≡ (pg_dir_entry + 4096 * k) % 2 ^ 32
  unfolding m1 m2 m3
  build_dir k h =
      build_at (page_table_addr + 4 * k) (omega arith)
      ∙ fill_below f m2 (page_table_addr + 4096) pg_table_entry (page_table_addr + 4 * k)
          (omega arith)
      ∙ pad_below 1025 m1 (page_table_addr + 4 * t) (page_table_addr + 4 * k) (omega arith)
      ∙ fill_at t m page_table_addr pg_dir_entry k h (omega arith)

  -- The directory behind them.
  build_gap : (k : ℕ) → t ≤ k → k < 1024 → build t f m (page_table_addr + 4 * k) ≡ 0
  unfolding m2 m3
  build_gap k h l =
      build_at (page_table_addr + 4 * k) (omega arith)
      ∙ fill_below f m2 (page_table_addr + 4096) pg_table_entry (page_table_addr + 4 * k)
          (omega arith)
      ∙ ap (pad 1025 m1 (page_table_addr + 4 * t)).0 (omega arith)
      ∙ pad_at (1024 - t) 1025 m1 (page_table_addr + 4 * t) (page_table_addr + 4096) (k - t)
          (omega arith) refl (omega arith) (omega arith) (omega arith)

  -- An entry of the tables, which stand one behind the other.
  build_table :
      (j : ℕ)
      → j < f
      → build t f m (page_table_addr + 4096 + 4 * j) ≡ (pg_table_entry + 4096 * j) % 2 ^ 32
  unfolding m3
  build_table j h =
      build_at (page_table_addr + 4096 + 4 * j) (omega arith)
      ∙ fill_at f m2 (page_table_addr + 4096) pg_table_entry j h (omega arith)

-- The processor's walk with 4 KiB pages, CR3 holding `page_table_addr`: `none` is a page fault.
-- Bit 0 of an entry is "present", and its upper 20 bits are the frame.
abbrev frame : ℕ → ℕ
frame e = e / 4096 * 4096

walk_table : Words → (table v : ℕ) → Option ℕ
walk_table m table v =
    let e = m (frame table + 4 * (v / 4096 % 1024)) in
    if e % 2 == 1 then some (frame e + v % 4096) else none

pub walk : Words → ℕ → Option ℕ
unfolding walk_table
walk m v =
    let e = m (page_table_addr + 4 * (v / 4194304)) in if e % 2 == 1 then walk_table m e v else none

walk_table_lem :
    (m : Words) (e v : ℕ)
    → m (frame e + 4 * (v / 4096 % 1024)) ≡ 3 + 4096 * (v / 4096)
    → walk_table m e v ≡ some v
unfolding walk_table
walk_table_lem m e v h = rw h (ground arith)

walk_lem :
    (m : Words) (e v : ℕ)
    → m (page_table_addr + 4 * (v / 4194304)) ≡ e
    → e % 2 ≡ 1
    → m (frame e + 4 * (v / 4096 % 1024)) ≡ 3 + 4096 * (v / 4096)
    → walk m v ≡ some v
unfolding walk
walk_lem m e v d odd h = rw (d, odd) (walk_table_lem m e v h)

-- Below 64 MiB the tables of `page_init` map every address to itself.
pub page_init_identity : (m : Words) (v : ℕ) → v < 67108864 → walk (page_init m) v ≡ some v
unfolding page_init
page_init_identity m v h =
    walk_lem (build pg_tables pg_frames m) (0x01001003 + 4096 * (v / 4194304)) v
      (build_dir pg_tables pg_frames m (omega arith) (omega arith) refl (v / 4194304) (omega arith)
        ∙ omega arith)
      (omega arith)
      (ap (build pg_tables pg_frames m) (omega arith)
        ∙ build_table pg_tables pg_frames m (omega arith) (omega arith) refl (v / 4096)
            (omega arith)
        ∙ omega arith)

-- From 64 MiB on no address is mapped, though `page_init` fills tables for 128 MiB: it enters only
-- 16 of the 32 tables in the directory.
page_init_unmapped : (m : Words) (v : ℕ) → 67108864 ≤ v → v < 2 ^ 32 → walk (page_init m) v ≡ none
unfolding walk page_init
page_init_unmapped m v h l = ground (
  arith,
  build_gap pg_tables pg_frames m (omega arith) (omega arith) refl (v / 4194304) (omega arith)
      (omega arith),
)
