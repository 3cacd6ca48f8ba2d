-- ===== src/Lib.antt =====
-- A model of rpiosv2, a small operating system for the Raspberry Pi, and of the bootloader that
-- receives it over a serial line, with theorems on both.
--
-- The allocator (src/smemory.c) hands out blocks of one heap. Queues (src/queue.c) link nodes of any
-- type, and take their own memory from the allocator. Processes (src/process.c) are nodes of the run
-- queue, the dead queue, the tick queue or the wait queue of a semaphore (src/synch.c); the one that
-- runs is on none. A switch of contexts (src/boot.S) saves the registers on the stack of the one and
-- takes them from that of the other. The timer interrupt calls `clock_handler`, which wakes sleepers
-- and yields. The kernel (src/kernel.c) sets up the heap, the UART (src/uart.c), the LEDs
-- (src/gpio.c), the screen (src/gpu.c), which asks the video core for a frame buffer
-- (src/framebuffer.c) through its mailbox (src/mailbox.c), the interrupts and the timer, and then
-- starts the processes. The bootloader (serial/bootloader) carries out the packets of serial/forward.py.
--
-- Base: names and lemmas that all parts share; Base/Mixing is on `^` and `|`,
--   and Base/Masks on single bits.
-- Interrupts/Level: INTERRUPTS_ENABLED, ENABLE_INTERRUPTS, DISABLE_INTERRUPTS and
--   SET_INTERRUPT_LEVEL of src/interrupts.h, on a Boolean that stands for bit 7 of CPSR.
-- Interrupts/Irq: src/interrupts.c. The registers and the two tables are a record; the code that a
--   table names is a parameter, a function on the controller and a world of its own.
-- Memory: src/smemory.c. `Memory` is the list head and the fields of the block headers as maps from
--   addresses, `Machine` that and the interrupt level. `blockify`, `split`, `toggle_alloc`, `salloc`
--   and `sfree` keep their names; `walk`, `take_block` and `finish` are the loop of `salloc`, its body
--   and its returns. An abstract heap is a list of blocks (Memory/Blocks), and Memory/Claim, Take,
--   Salloc and Sfree show that the code implements first fit on it; Memory/Grants is on sequences of
--   calls.
-- Queue: src/queue.c. `Store` has a map for each field. Queue/State says that a queue holds a list of
--   nodes, and Queue/Family that many queues do and share no node.
-- Kernel: the globals and the `pcb` of src/process.c, the semaphore, the registers, and
--   `context_switch`. Saved states are kept by their lowest address: two that overlap in part are not
--   told apart from two that do not.
-- Scheduler: process_start, process_stop, process_yield, schedule_next_process, get_current_process.
-- Semaphore: src/synch.c. Clock: proc_sleep_ms, should_awaken, clock_handler.
-- Process: create_process, process_fork, cleanup, the reaper, the start of the system, which
--   Process/Start, Launch, Entered, Parts and System take apart.
-- Bootloader: the loop of serial/bootloader/src/bootloader.c, a byte of input at a time, and the
--   packets of serial/forward.py (Bootloader/Sender).
-- Stdlib: itoa, atoi, mcpy and mzero of src/stdlib.c, on maps from positions and addresses. Their loops
--   run on 2^33 rounds, more than a `uint32_t` has values, or on rounds that are an argument (atoi).
-- Mmio: mmio_write and delay of src/utils.h as events, and the loops that wait on a status register,
--   over the stream of values that its reads give. A loop answers `none` when the stream ends.
-- Mailbox: src/mailbox.c. The message is words of memory, in a block of the heap. `size_loop`,
--   `pad_size`, `write_message`, `exchange`, `answer_message` and `read_back` are the parts of
--   `send_messages`, in this order; what the video core does to memory is the parameter `device`,
--   which gets the word that was last written to MAIL0_WRITE.
-- Uart: src/uart.c. Stdout: `putc`, `puts` and `prntf` of src/stdout.c; `directive` is its switch.
--   A format is read from memory; Stdout/Pieces has formats as lists of pieces.
-- Framebuffer: `framebuffer_init` of src/framebuffer.c, with the lines that it prints; what a call
--   that succeeds leaves is in Framebuffer/Success.
-- Gpu: src/gpu.c. `glyph_loop` draws a character, `shift_up` scrolls, `advance` moves the cursor; the
--   frame buffer is bytes of memory. Gpio: src/gpio.c. SysTimer: `udelay` of src/sys_timer.c.
-- ArmTimer: src/arm_timer.c. Main: `get_system_config`, `init_systems` and `kernel_main` of
--   src/kernel.c; `Board` has the state of all parts. Main/Tasks: `main_proc`, and a round of the
--   loops of `proc_1` and `proc_2`.
-- Samples, and the modules named Examples: small states at which the theorems are applied.
--
-- A function that gives up the processor is modelled up to the point where the next process runs; what
-- is left of it is what that process does when it is resumed (`semaphore_P_resume`). Nothing
-- interrupts a function that runs with interrupts disabled; Clock/Window is on a place where they
-- are not. A count is an unbounded integer, since a queue as long as 2^31 does not fit into memory;
-- addresses, sizes and ticks are `uint32_t`, with each wrap written out.
--
-- Loops that follow pointers run on fuel, and answer `none` when it runs out. The loop of `salloc` has
-- 2^28 + 1 rounds: a block takes 16 bytes or more of 2^32, so that a list in memory is shorter. The
-- loops on queues take their fuel as an argument, and one round more than the queue has nodes is
-- enough. In `clock_handler` the same fuel bounds each walk and the number of rounds.
--
-- Not modelled: `dump` and `data_abort_expn`, which print what memory holds; the constants of
-- src/peripheral.h; src/atomics.h, assembly that nothing calls; the vector table, the reset and
-- the entry of an interrupt in assembly; and what memory holds beyond headers, nodes and `pcb`s,
-- messages, texts and the frame buffer. The bitmaps of src/font.h come from a font library, and
-- are a parameter, as is what the video core does to memory for a mail.
pub mod Base
pub mod Interrupts
pub mod Memory
pub mod Queue
pub mod Kernel
pub mod Scheduler
pub mod Semaphore
pub mod Clock
pub mod Process
pub mod Bootloader
pub mod Stdlib
pub mod Mmio
pub mod Mailbox
pub mod Uart
pub mod Stdout
pub mod Framebuffer
pub mod Gpu
pub mod Gpio
pub mod SysTimer
pub mod ArmTimer
pub mod Main
pub mod Samples
