-- ===== src/Lib.antt =====
-- The bare-metal runtime of the Abstract Machine for XiangShan processors: the C library
-- (libs/klib) and the RISC-V layer below it (am/src/xs/isa/riscv, am/src/nemu/isa/riscv).
--
-- Programs are linked with klib, which uses the heap that the platform gives to it as an area. The
-- RISC-V layer sets up the processor: it protects ranges of physical memory, enables the sources
-- of interrupts, gives traps to handlers, and builds the page tables by a page allocator which the
-- program passes to it. klib's memset clears each new page of a table. The devices are read and
-- written by klib's io.c, on which programs like the typing game stand.
--
-- Base holds what the rest shares: Boolean tests, lists, integers, the bits of numbers and the
-- chains of steps that may fault. A machine integer is a ℕ below its bound, and what wraps has
-- its `%` written out.
--
-- Klib, for libs/klib/src:
--   Klib.Memory: bytes by address; loads and stores of words, in the byte order of the machine,
--     which fault where they are not aligned.
--   Klib.Block, for string.c: memset, memcpy and memmove, each with its loops over bytes and over
--     words of 4 and 8 bytes. Klib.Block.Copied says on its own what they are for, and Copy,
--     Moves and Fill prove it. The loops count their size down.
--   Klib.Strings, for string.c: strlen, strcpy, strncpy, strcat, strcmp, strncmp and memcmp. A
--     string's length is no argument of the C code, so the loops take fuel: it bounds the bytes
--     that are looked at, and the theorems say how much is enough. Laws, Compare and Equal hold
--     the proofs.
--   Klib.Stdlib, for stdlib.c, with lock and release of atomic.c as a lone hart sees them, and
--     ROUNDUP of libs/klib/include/klib-macros.h: rand, abs, atoi, malloc and free. Random,
--     Numbers and Heap hold the proofs.
--   Klib.Atomic, for atomic.c: compare_and_swap, lock and release by any number of harts, one
--     step for each access to the word. Exclusion holds the invariant
--     and Progress shows that a free lock can be taken.
--
-- Riscv:
--   Riscv.Pmp, for am/src/xs/isa/riscv/pmp.c: the accesses to registers by number, init_pmp,
--     enable_pmp, enable_pmp_TOR (here enable_pmp_tor) and disable_pmp over a register file. Csr,
--     Entry and Tor hold the proofs. An assertion that fails is the result `none`.
--   Riscv.Plic, for am/src/xs/isa/riscv/plic.c: the calls as reads and writes of 32-bit words.
--   Riscv.Vme, for am/src/nemu/isa/riscv/vme.c: _map, _map_fault and _map_rv_hugepage (here
--     without the underscore) in the 64-bit build. Memory is 64-bit words by address, and the
--     client's allocator the list of pages it will give. Sv39 describes address translation on
--     its own, from the privileged architecture, with its page faults: addresses that are not
--     canonical, entries that are not valid and those with reserved combinations or bits. The
--     loop counts its level down. Init is _vme_init and _vme_init_custom, where the loop over an
--     area has one step of fuel for each page: more changes nothing. Space is _protect (here
--     protect_as). Entry, Walk, Tables and Path hold proofs.
--   Riscv.Cte, for am/src/nemu/isa/riscv/cte.c, with __am_get_cur_as, __am_switch and _ucontext
--     of vme.c: the tables of handlers, the handlers that _cte_init puts there, and the dispatch
--     of a trap, __am_irq_handle (here irq_handle). The client's handlers are functions on the
--     world, which is the contexts by address and the registers that the handlers use. Dispatch
--     and Init hold the proofs.
--
--   Riscv.Mpe, for am/src/xs/isa/riscv/mpe.c: _barrier by any number of harts, one step for each
--     access to its counter or its sense, with the number of harts and the atomic operations. Tally
--     counts harts, Barrier says what always holds of the variables, Rounds and Inductive show that
--     every step keeps it, and Safety says what follows.
--   Riscv.Pma, Riscv.Cache and Riscv.Clint, for pma.c, cache.c and clint.c of am/src/xs/isa/riscv:
--     registers by index, and the machine timer.
--   Riscv.Boot, for __am_init_cte64 of am/src/nemu/isa/riscv/cte64.c, which calls the protection
--     and the timer: the registers as it leaves them. Regions describes on its own which accesses
--     the protection registers let through, from the privileged architecture, with no answer where
--     an entry has a combination of permissions that is reserved.
--
-- Bf16, for the reference conversions that the tests of the bfloat16 instructions use: Bf16 itself
-- for tests/bf16/bf16.c, with a rounding mode, and Bf16.Ame for the older tests/ame-bf16/bf16.c.
-- A float is its bits. Rounding says what the modes of IEEE 754 ask for; Ame.Agreement compares
-- the two.
--
-- Softmdu, for the emulation of multiplication and division in am/src/noop/isa/riscv/instr.c,
-- with the checks of tests/softmdutest/main.c, which runs the same functions: softmul and
-- softdiv, word by word, and the test's main. Instr is the handler of an illegal instruction,
-- which decodes and emulates it over the saved registers, whose slot 0 is the union of gpr[0] and
-- pdir; Zero is about a divisor of zero. Division and Product
-- hold the proofs, Booth the rounds of the multiplier.
--
-- Cputest, for the programs of tests/cputest/tests. Programs has a module for each, with its
-- tables, its functions and its main, which is `none` where an assertion halts the program and
-- `some 0` where it returns. Sort and Sorting hold the three sorting programs, over any order and
-- any length; Arrays and the children of Sort hold their proofs. quick_sort and the recursion of
-- recursion.c take the depth of their calls as fuel, and the theorems say how much is enough.
-- Primes, Depth and Bits hold the proofs on goldbach.c, recursion.c and bit.c.
--
-- Microbench, for apps/microbench: Bench for src/bench.c (bench_alloc over the memory of Klib,
-- random numbers, checksums), and Qsort, Queen, Sieve and Fib for the benchmarks of these names. A
-- benchmark's setting is an argument. Tests runs each with the setting "test" of
-- include/benchmark.h. dfs and myqsort take the depth of their calls as fuel; the fuel of the other
-- loops is the bound that they count to. Alloc, Qsort.Divide, Qsort.Laws, Sieve.Marks,
-- Sieve.Rounds, Sieve.Loop and Sieve.Laws hold the proofs. The ints of sieve.c are 32-bit words, and
-- its theorem takes sizes whose squares and sums do not overflow.
--
-- Ame.Pack4, for apps/ame-fp2pack4/main.c: its matrices, the packing of four 2-bit codes into a
-- byte, and its check of a result. The matrix unit is a parameter: it is any function from the
-- matrices to those with a result. Lanes and Laws hold the proofs.
--
-- Devices, for the devices as a program reaches them. Audio, Video and Timer are audio.c, video.c
-- and timer.c of am/src/nemu/common; Input is am/src/noop/common/input.c, with the names of keys
-- of am/amdev.h in Keys; and Io is libs/klib/src/io.c over these. What a device's register reads
-- is an argument: a time, a key, a size. The loop of __am_audio_write (here am_audio_write) takes
-- the counts that it reads, one after the other, and is `none` where they do not suffice. A
-- request to Video halts at the assertion, strays out of the frame buffer, or is drawn. Each
-- device has its proofs in Laws.
--
-- Native.Vme, for am/src/native/vme.c, where a program runs as a process of the host: _map (here
-- map), __am_switch (here am_switch) and the rest but _ucontext, with the calls of platform.c to
-- mmap and munmap. Lists says what the linked list of an address space maps, and Host what the
-- calls leave mapped, from their documentation. The calls are taken not to fail. The loops over a
-- list take fuel: one step for each node and one more is enough. Map is about a new address and
-- Again about one that the space has; Hide, Show and Switch are about the change of the space in
-- use.
--
-- Typing, for apps/typing. Keyboard is keyboard.c over read_key of Devices.Io. Game is game.c
-- with the linked list of game.h: a pool of nodes whose fields are functions of the node's
-- number, the list of letters and the list of free nodes. What rand returns is an argument. The
-- loops over a list take fuel, and `pool_size` + 2 is enough for each list of the nodes. Moves,
-- Steps and Letters hold the lemmas on lists and letters; Refine proves update_letter_pos against
-- the list of letters, Create and Start are about create_new_letter, Press about update_keypress,
-- Place about where the letters are, and Frame about a round of main. Draw is draw.c: the canvas,
-- the places that last_draw keeps, and the calls of draw_rect; the font of font.c is a parameter.
-- The loop of itoa counts the room of its array down and is `none` where it would leave it; no
-- number takes more than 10 of the 63 characters. Cells, Clear, Numbers and
-- Redraw hold its proofs.
--
-- Arrays and Words are shared by Cputest and Microbench: arrays as functions of the index with what
-- sorting them means, and signed arithmetic on words. Arrays.Halves puts sorted halves together.
--
-- Not modelled: the assembly that enters and leaves a trap, the wake-up of further harts, the
-- drivers of devices for other platforms, most of the platforms of other processors, what
-- programs print, most programs and tests of hardware, and the parts that are copies of other
-- projects (printf.c, int64.c, apps/fceux, apps/coremark and others). Volatile accesses and
-- fences are left out, and so are the effects of other harts but for the lock and the barrier.
pub mod Ame
pub mod Base
pub mod Arrays
pub mod Words
pub mod Klib
pub mod Devices
pub mod Riscv
pub mod Bf16
pub mod Softmdu
pub mod Native
pub mod Typing
pub mod Cputest
pub mod Microbench
