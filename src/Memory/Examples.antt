-- ===== src/Memory/Examples.antt =====
-- The theorems on src/smemory.c at a heap of 4096 bytes, and runs of the allocator.
use rpiosv.Base.{
  ◌+◌, ◌%◌, ◌≤◌, ◌≡◌, refl, false, Option, none, some, List, [], ◌∷◌, Addr, null, arith,
}
use rpiosv.Interrupts.Level.{enabled, set_interrupt_level, interrupts_enabled}
use rpiosv.Memory.{Memory, Machine, init_smemory, salloc, round_size, walk, take_block}
use rpiosv.Memory.Blocks.{Block, total, fits, first_fit}
use rpiosv.Memory.Take.{IsHeap}
use rpiosv.Memory.Salloc.{answer, salloc-first_fit}
use rpiosv.Memory.Sfree.{init_smemory-IsHeap}
use rpiosv.Memory.Caller.{Unused, salloc-Unused, salloc-total}
use rpiosv.Memory.Room.{roomy}
use rpiosv.Memory.Grants.{Granted, Fresh, room_for, salloc-Granted}

abbrev blank : Memory
blank = record { block_list_head = null; size = λ _. 0; next_block = λ _. 0 }

abbrev lo : Addr
lo = 0x9000

abbrev hi : Addr
hi = 0xa000

abbrev booted : Machine
booted = record { irq = enabled; memory = init_smemory lo 0x1000 blank }

abbrev one_block : List Block
one_block = record { addr = lo; capacity = 0xff0; used = false } ∷ []

heap : IsHeap lo hi booted.memory one_block
heap = init_smemory-IsHeap lo 0x1000 blank (omega arith) refl refl (omega arith) (omega arith)

-- The machine after the first call.
abbrev first_call : Option (Addr × Machine)
first_call = salloc 100 booted

abbrev after : Machine
after = elim first_call [ none ↦ booted | some (p, s) ↦ s ]

-- 100 is rounded to 112; the rest is split off.
first_call_returns : first_call ≡ some (lo + 16, after)
unfolding salloc walk take_block init_smemory round_size set_interrupt_level interrupts_enabled
first_call_returns = refl

rounded : round_size 100 ≡ 112
unfolding round_size
rounded = refl

first_call_fits :
    first_fit (round_size 100) one_block
    ≡ some (record { addr = lo; capacity = 0xff0; used = false })
unfolding round_size first_fit fits
first_call_fits = refl

salloc-first_fit_example :
    salloc 100 booted ≡ answer 100 booted (first_fit (round_size 100) one_block)
salloc-first_fit_example = salloc-first_fit 100 lo hi booted one_block heap

salloc-Unused_example :
    ((lo + 16) % 16 ≡ 0)
    × (lo + 16 ≤ lo + 16)
    × (lo + 16 + 100 ≤ hi)
    × Unused (lo + 16) 100 one_block
salloc-Unused_example =
    salloc-Unused 100 lo hi booted one_block heap (lo + 16) after (omega arith) first_call_returns
      (omega arith)

salloc-total_example :
    (bs' : List Block) × IsHeap lo hi after.memory bs' × (total bs' + 16 ≡ total one_block)
salloc-total_example =
    salloc-total 100 lo hi booted one_block heap (lo + 16) after
      (record { addr = lo; capacity = 0xff0; used = false }) first_call_returns first_call_fits
      (omega (arith, rounded))

salloc-Granted_example :
    Granted (8 ∷ 100 ∷ 24 ∷ []) booted (λ ps t. Fresh lo hi (8 ∷ 100 ∷ 24 ∷ []) one_block ps)
unfolding roomy room_for fits round_size
salloc-Granted_example = salloc-Granted lo hi (8 ∷ 100 ∷ 24 ∷ []) booted one_block heap refl
