-- ===== src/Memory.antt =====
-- The allocator of src/smemory.c. A block header (`mem_block`, 16 bytes) stands at the address of
-- its block, so the headers are two maps from addresses; what the blocks hold is not the
-- allocator's, and is modelled where it is used. Every number is a `uint32_t`, and each sum and
-- difference wraps as in C.
pub mod Blocks
pub mod Chain
pub mod Claim
pub mod Take
pub mod Salloc
pub mod Sfree
pub mod Caller
pub mod Room
pub mod Grants
mod Examples
use rpiosv.Base.{
  ℕ, zero, suc, ◌+◌, ◌-◌, ◌*◌, ◌/◌, ◌%◌, ◌^◌, Bool, ◌&&◌, Option, none, some, bit_and, bit_xor, leb,
  ◌==◌, if◌then◌else◌, Addr, null, update,
}
use rpiosv.Interrupts.Level.{Level, disabled, set_interrupt_level, interrupts_enabled}

pub record Memory : Type 0 where
  pub block_list_head : Addr
  pub size : Addr → ℕ
  pub next_block : Addr → Addr

-- The state that `salloc` works on: the interrupt level and the headers.
pub record Machine : Type 0 where
  pub irq : Level
  pub memory : Memory

abbrev pub u32 : ℕ → ℕ
u32 n = n % 2 ^ 32

-- `a - b` on `uint32_t`.
abbrev pub sub32 : ℕ → ℕ → ℕ
sub32 a b = (a + 2 ^ 32 - b) % 2 ^ 32

-- sizeof(mem_block)
abbrev pub header : ℕ
header = 16

pub blockify : Addr → ℕ → Memory → Memory
blockify head_ptr given_size m = record m {
  next_block = update m.next_block head_ptr null;
  size = update m.size head_ptr (sub32 given_size header);
}

unfoldable pub init_smemory : Addr → ℕ → Memory → Memory
unfolding blockify
init_smemory mem_ptr size m = record (blockify mem_ptr size m) { block_list_head = mem_ptr }

pub insert_new_block : Addr → Memory → Memory
insert_new_block block m = record m {
  next_block = update m.next_block block m.block_list_head;
  block_list_head = block;
}

pub split : Addr → ℕ → Memory → Memory
unfolding blockify insert_new_block
split block req_size m =
    let new_ptr = u32 (block + header + req_size) in
    let new_avail_size = sub32 (sub32 (m.size block) req_size) header in
    let m' = insert_new_block new_ptr (blockify new_ptr new_avail_size m) in
    record m' { size = update m'.size block req_size }

pub is_free : Memory → Addr → Bool
is_free m block = bit_and (m.size block) 1 == 0

pub toggle_alloc : Addr → Memory → Memory
toggle_alloc block m = record m { size = update m.size block (bit_xor (m.size block) 1) }

-- Round up to a multiple of 16.
unfoldable pub round_size : ℕ → ℕ
round_size size = u32 ((size / 2 ^ 4 + 1) * 2 ^ 4)

-- The body of `if (is_free(block) && block->size >= size)`, less the return.
unfoldable pub take_block : Addr → ℕ → Memory → Memory
unfolding split toggle_alloc
take_block block size m =
    toggle_alloc block
      (if leb (u32 (size + header + 16)) (m.size block) then split block size m else m)

-- How the loop of `salloc` ends: at the end of the list, or by the return within it.
pub data Walk : Type 0 where
  out_of_fuel : Walk
  exhausted : Walk
  returned : Addr → Memory → Walk

-- The loop of `salloc` from `block` on.
unfoldable pub walk : ℕ → ℕ → Addr → Memory → Walk
unfolding is_free
walk zero size block m = out_of_fuel
walk (suc fuel) size block m =
    let rest = walk fuel size (m.next_block block) m in
    if block == null
    then exhausted
    else if is_free m block && leb size (m.size block)
    then returned (u32 (block + header)) (take_block block size m)
    else rest

-- Blocks are 16 bytes or more, so a list in the address space has at most 2 ^ 28 of them.
abbrev pub block_fuel : ℕ
block_fuel = 2 ^ 28 + 1

-- The return within the loop does not restore the interrupt level.
pub finish : (prev_level irq : Level) → Memory → Walk → Option (Addr × Machine)
finish prev_level irq m out_of_fuel = none
finish prev_level irq m exhausted =
    some (null, record { irq = set_interrupt_level prev_level irq; memory = m })
finish prev_level irq m (returned p m') = some (p, record { irq = irq; memory = m' })

-- `none` stands for a call that does not return.
unfoldable pub salloc : ℕ → Machine → Option (Addr × Machine)
unfolding finish
salloc size s =
    finish (interrupts_enabled s.irq) (set_interrupt_level disabled s.irq) s.memory
      (walk block_fuel (round_size size) s.memory.block_list_head s.memory)

pub sfree : Addr → Memory → Memory
unfolding toggle_alloc
sfree ptr m = if ptr == null then m else toggle_alloc (sub32 ptr header) m
