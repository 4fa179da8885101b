-- ===== src/Lib.antt =====
-- A verification library for the AuraOS kernel (kernel/): the physical memory manager, the page codec
-- of the compressed memory pool, the cooperative scheduler, the keyboard driver, the timer, the
-- telemetry sampler, the page fault handler, the descriptor tables, the interrupt
-- dispatch, the page tables, the serial port, the text console and the windows, dashboard and shell drawn
-- on it, the slab zones, the boot information and the kernel's entry.
--
-- The parts and their files. `kernel_main` initialises the parts in turn; the heap and the page tables
-- take frames from the physical memory manager, the compressed pool stores what its codec makes of
-- a page, interrupts enter the keyboard driver and the timer, the timer calls the
-- sampler, which reads the memory manager, and tasks call the scheduler.
--   Pmm       kernel/core/pmm.c. A record holds the static variables; `init`, `mark_used`, `mark_free`,
--             `alloc_frame`, `free_frame`, `alloc_contiguous` and the three queries are the functions
--             of these names behind `pmm_`. Below it: how the bitmap is counted (Count), the scans
--             (Scan, Range), the invariant (Invariant), the two allocations (Alloc, Contiguous), marks
--             (Mark) and sequences of calls (Calls).
--   Zram      kernel/core/zram.c. Codec is `zram_compress_page` and `zram_decompress_page`. Below it:
--             one round of the compressor (Chunks), ends and bounds (Bounds, Fill), the round trip
--             (RoundTrip) and the pages for which it fails (ShortLiteral). Pool is the slots above it:
--             `init`, `store`, `load`, `free` and `get_stats` are the functions of these names behind
--             `zram_`. Below it: bytes in memory (Bytes), the invariant (Slots), the operations (Fill,
--             Store, Free), sequences of calls (Calls), and the pool on the kernel heap (OnHeap).
--   Sched     kernel/core/sched.c with kernel/include/aura/sched.h. `init`, `create_task`,
--             `yield_task` and `current` are `sched_init`, `sched_create_task`, `sched_yield` and
--             `sched_current`. Below it: the table's invariant (Table), a switch (Yield), rounds of
--             switches (Fairness) and a new task with its stack (Create).
--   Keyboard  kernel/drivers/keyboard.c. `handle` is `keyboard_handler` on the byte of the data port;
--             `init`, `getchar` and `has_key` are the functions of these names. Below it: the ring's
--             contents (Ring) and runs of interrupts and reads (Fifo).
--   Pit       kernel/arch/x86_shared/pit.c. `irq_handler`, `set_callback` and `get_ticks` are the functions
--             of these names behind `pit_`; `init_writes` is what `pit_init` writes to the ports.
--   Sysmon    kernel/core/sysmon.c. `init`, `tick`, `set_idle` and `get_stats` are the functions of these
--             names behind `sysmon_`; `count_tick` and `latch` are the halves of the tick, `cpu_load` is
--             the load in the snapshot. Below it: windows of 1000 ticks (Window) and the snapshot after
--             interrupts of the timer (Load).
--   Pagefault kernel/core/pagefault.c. `hex_to_str` is the function of this name; `decode`, `describe` and
--             `page_fault_message` are the steps of `page_fault_handler` up to the panic screen. Below
--             it: hexadecimal text (Hex) and the message (Message).
--   Gdt       kernel/arch/x86_shared/gdt.c, the 64-bit build. `set_gate`, `write_tss` and `init` are
--             `gdt_set_gate`, `write_tss` and `gdt_init`. Below it: what the processor reads from the
--             descriptors (Descriptors).
--   Idt       kernel/arch/x86_shared/idt.c, the 64-bit build. `set_gate`, `register_handler`,
--             `isr_handler`, `irq_handler`, `install`, `pic_remap` and `pic_send_eoi` are the functions of
--             these names, some behind `idt_` or `isr_`. Below it: the gates (Gates), and which handler
--             runs and how an interrupt is acknowledged (Dispatch).
--   Vmm       kernel/arch/x86_64/vmm.c. `map_page`, `unmap_page` and `virt_to_phys` are the functions of
--             these names behind `vmm_`; `descend` is one level of the first. Below it: the invariant
--             (Tables), one level (Descend) and translation (Translate).
--   Serial    kernel/arch/x86_shared/serial.c. `init_writes` is what `serial_init` writes to the ports;
--             `has_char`, `getc` and `printf` are the functions of these names behind `serial_`, and
--             `print_number` and the like those of their names. Below it: numbers (Number), and formats
--             (Printf).
--   Vga       kernel/drivers/vga.c. `init`, `clear`, `set_color`, `scroll`, `newline`, `putc`, `puts` and
--             `printf` are the functions of these names behind `vga_`; `format` is the text that the
--             last one writes. Below it: scrolling (Scroll), the screen as a window on a sheet of paper
--             (Paper), and formats (Format).
--   Menu      kernel/core/menu.c. `log_print`, `str_eq`, `init`, `execute_command` and `handle_key` are the
--             functions of these names, some behind `menu_`; `enter` and `edit_key` are the branches of
--             the last one. Below it: the log window (Log), the buffers (Line), commands (Commands),
--             keys (Keys), `menu_render` and `menu_update` (Draw), and the log on the screen (Window).
--   Panic     kernel/core/panic.c. `set_recovery_point`, `poll_key`, `aura_panic_interactive` and `aura_panic`
--             are the functions of these names, some behind `panic_`; `draw_panic` is the drawing of
--             the third and `key_loop` its loop. Below it: the registers on the screen (Dump), the key that
--             ends the loop (Keys), and what is sent on the serial port, with `panic_do_reboot` and
--             `panic_do_poweroff` (Report).
--   Digits    the loops that split a number into digits, in the three before; Varargs the arguments
--             of `printf`.
--   Heap      kernel/core/heap.c. `free_list_add`, `free_list_remove`, `grow_heap`, `init`, `kmalloc`,
--             `kfree`, `get_used` and `get_free` are the functions of these names, some behind `heap_`;
--             `first_fit`, `split_block` and `take_block` are the steps of `kmalloc`, and the two
--             coalescings those of `kfree`. Below it: the free list (FreeList), a block that leaves it
--             (Unlink), an allocation (Fit), and one for which the heap grows (Grow); where blocks are
--             (Layout) and what a cut (Split), a join (Merge) and growth (Extend) do to that, the
--             fields of the headers (Fields, MergeFields), the invariant (Invariant) and how the steps keep it
--             (Steps, Changes, Growth); what `kmalloc` (Take, TakeBlock, Obtain) and `kfree` (Release)
--             leave; the account of what is allocated (Accounts), sequences of calls (Runs), what they
--             keep apart (Separate), the heap as an `Allocator` (Provided), and when `kmalloc` succeeds
--             (Succeeds). Resize is `krealloc` (Copy, Realloc) and `kmalloc_aligned` (Aligned); Bare is a heap
--             for the runs.
--   Slab      kernel/core/slab.c. `zone_refill`, `init`, `set_phys_offset`, `size_to_zone_index`, `zalloc` and
--             `zfree` are the functions of these names, some behind `slab_`; `carve` is the loop of the
--             first, and `pop` and `push` are the ends of the last two. Below it: where a chunk lies
--             (Place), the free lists (Chain), a new page (Refill), the invariant (Invariant), a chunk
--             that leaves or enters a list (Steps), the two calls (Calls), sequences of calls (Runs),
--             and what they keep apart (Separate).
--   Tui       kernel/drivers/tui.c with the colours of kernel/include/aura/theme.h. `putc_at`, `puts_at`,
--             `printf_at`, `draw_box`, `draw_bar`, `draw_header` and `draw_footer` are the functions of
--             these names behind `tui_`; `format` is the text in the buffer of `printf_at`. Below it:
--             cells (Cells), texts (Puts), boxes (Box) with their rows (Edges) and titles (Title), what is left
--             alone (Rows), bars (Bar), and the buffer (Format).
--   Dashboard kernel/core/dashboard.c. `format_uptime`, `draw_cpu_box`, `draw_memory_box`,
--             `draw_process_table` and `render` are the functions of these names. Below it: the uptime
--             and the rows of the table (Text).
--   Multiboot kernel/core/multiboot2.c. `parse` is `multiboot2_parse`, on a memory of bytes. Below it: what
--             a tag in memory says (Tags), and the loop over the tags (Parse).
--   Kernel    kernel/main.c. `boot_frames` is the memory manager after the reservation in `kernel_main`,
--             `boot_heap` the heap on it; `drain`, `poll_serial` and `round` are the loop at its end. Below
--             it: the reservation (Reserve), the heap (Memory), and the keys that wait (Keys).
--   Allocator the heap, as the parts above it use it (kernel/include/aura/heap.h). Below it: the calls of
--             a client and the account of what it has (Calls).
--   Base      what the others share: tests on numbers, lists as arrays, machine words, and masks (Masks).
-- Each part has a module Examples with runs and with its theorems at concrete inputs; Pit's runs are
-- among Sysmon's.
--
-- Conventions. An unsigned word is a number, and an operation that can leave its width is cut by the
-- modulus; where a result is seen not to leave it (an index below a table's size) it is not. Arrays are
-- lists, and a read out of range gives a fixed value. A C string is the list of the characters before
-- its NUL. A pointer that may be NULL is an option, or a number that may be 0.
--
-- Loops. A loop over an array or a counted loop recurs on the rounds left. The two loops of the codec
-- take fuel, one round more than there are bytes; each round consumes a byte at least, so the fuel
-- never runs out, on any input. A number of 64 bits or fewer is split into digits in 64 rounds at
-- most (32 for 32 bits), which `Digits.Value` shows to be enough. A search of the heap's free list takes
-- fuel, and needs one step more than there are blocks before the one it finds; `kmalloc` calls itself
-- once, after the heap has grown, and the new block is the first that is searched. The tags of the boot
-- information take fuel, one round more than there are tags before the end tag. The keys that wait are
-- at most 31, and the loop over them has 32 rounds. The loop of the panic screen takes fuel, one round
-- more than there are reads of the keyboard before the key that ends it.
--
-- What is a parameter: where the linker places the stacks and the trampoline (Sched) and the
-- descriptor table and the task state (Gdt), the addresses of the interrupt stubs (Idt). What is
-- not modelled: the messages and waits of the kernel's entry, which are calls of the other parts on
-- constant texts. The bytes of the heap's allocations are a memory of their own, apart from the
-- headers. Port input, the assembly stubs and the console messages are left out. The result of
-- `-val` for the least `int` in `vga_printf` and `tui_printf_at`, which C leaves open, is that of
-- two's complement: it stays negative, and so are the remainders that the digits are made of.
pub mod Base
pub mod Allocator
pub mod Dashboard
pub mod Digits
pub mod Gdt
pub mod Heap
pub mod Idt
pub mod Kernel
pub mod Keyboard
pub mod Menu
pub mod Multiboot
pub mod Pagefault
pub mod Panic
pub mod Pit
pub mod Pmm
pub mod Sched
pub mod Serial
pub mod Slab
pub mod Sysmon
pub mod Tui
pub mod Varargs
pub mod Vga
pub mod Vmm
pub mod Zram
