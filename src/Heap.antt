-- ===== src/Heap.antt =====
-- src/mm/kmalloc.c: the allocator. An address counts in units of `union header`, 8 bytes, so that
-- `p + 1` is the unit behind `p`; the two fields of the headers are functions of the address.
pub mod Fit
pub mod Blocks
pub mod Tiles
pub mod Before
pub mod Reached
pub mod Held
pub mod Live
pub mod Rounds
pub mod Requests
pub mod Taking
pub mod Rings
pub mod Released
pub mod Joining
pub mod Freeing
pub mod Rows
pub mod Placing
mod Tests
use janus.Base.{
  ℕ, zero, suc, ◌+◌, ◌-◌, ◌*◌, ◌/◌, ◌%◌, ◌^◌, Bool, true, false, ◌&&◌, ◌||◌, Option, none, some,
  ◌==◌, if◌then◌else◌, ltb, leb,
}

-- `ptr` and `size` of the header at each address, and `freep`, where `none` is NULL.
pub record Heap : Type 0 where
  pub ptr : ℕ → ℕ
  pub size : ℕ → ℕ
  pub freep : Option ℕ

abbrev pub update : (ℕ → ℕ) → (p v : ℕ) → ℕ → ℕ
update f p v q = if q == p then v else f q

-- KERNEL_MEM_START and KERNEL_MEM_SIZE, in units.
abbrev pub base : ℕ
base = 0x40000

abbrev pub total : ℕ
total = 0x1c0000

-- `nunits`: the units for so many bytes and a header.
pub units : (nbytes : ℕ) → ℕ
units nbytes = (nbytes + 8 - 1) % 2 ^ 32 / 8 + 1

-- The first call makes all of the kernel's memory one free block.
pub start : Heap → Option ℕ → Heap × ℕ
start h none = (
  record { ptr = update h.ptr base base; size = update h.size base total; freep = some base },
  base,
)
start h (some p) = (h, p)

-- The block at `p` is big enough: all of it, or its tail end.
pub allocate : Heap → (prevp p nunits : ℕ) → ℕ × Heap
allocate h prevp p nunits =
    if h.size p == nunits
    then (p + 1, record h { ptr = update h.ptr prevp (h.ptr p); freep = some prevp })
    else (let rest = h.size p - nunits in
        (
          p + rest + 1,
          record h { size = update (update h.size p rest) (p + rest) nunits; freep = some prevp },
        ))

-- The loop over the free list, on fuel; `morecore` returns NULL.
pub scan : (fuel : ℕ) → Heap → (freep prevp p nunits : ℕ) → Option (Option ℕ × Heap)
unfolding allocate
scan zero h freep prevp p nunits = none
scan (suc fuel) h freep prevp p nunits =
    let rest = scan fuel h freep p (h.ptr p) nunits in
    let (a, h') = allocate h prevp p nunits in
    if leb nunits (h.size p) then some (some a, h') else if p == freep then some (none, h) else rest

pub kmalloc : (fuel : ℕ) → Heap → (nbytes : ℕ) → Option (Option ℕ × Heap)
unfolding start
kmalloc fuel h nbytes =
    let (h1, prevp) = start h h.freep in scan fuel h1 prevp prevp (h1.ptr prevp) (units nbytes)

-- The search of `kfree` for the block before `bp`, on fuel.
pub place : (fuel : ℕ) → Heap → (bp p : ℕ) → Option ℕ
place zero h bp p = none
place (suc fuel) h bp p =
    let rest = place fuel h bp (h.ptr p) in
    if ltb p bp && ltb bp (h.ptr p)
    then some p
    else if leb (h.ptr p) p && (ltb p bp || ltb bp (h.ptr p))
    then some p
    else rest

-- `bp` takes in the block behind it, or is linked to it.
pub join_upper : Heap → (p bp : ℕ) → Heap
join_upper h p bp =
    let q = h.ptr p in
    if bp + h.size bp == q
    then record h {
      size = update h.size bp (h.size bp + h.size q);
      ptr = update h.ptr bp (h.ptr q);
    }
    else record h { ptr = update h.ptr bp q }

-- `p` takes in `bp`, or is linked to it.
pub join_lower : Heap → (p bp : ℕ) → Heap
join_lower h p bp =
    if p + h.size p == bp
    then record h {
      size = update h.size p (h.size p + h.size bp);
      ptr = update h.ptr p (h.ptr bp);
      freep = some p;
    }
    else record h { ptr = update h.ptr p bp; freep = some p }

linked : Heap → (bp : ℕ) → Option ℕ → Option Heap
linked h bp none = none
linked h bp (some p) = some (join_lower (join_upper h p bp) p bp)

kfree_from : (fuel : ℕ) → Heap → (bp : ℕ) → Option ℕ → Option Heap
unfolding place linked
kfree_from fuel h bp none = none
kfree_from fuel h bp (some p) = linked h bp (place fuel h bp p)

-- `none` is also that `freep` is NULL, through which the source then reads. A block is never at 0.
pub kfree : (fuel : ℕ) → Heap → (ap : ℕ) → Option Heap
unfolding kfree_from
kfree fuel h ap = kfree_from fuel h (ap - 1) h.freep
