-- ===== src/Lib.antt =====
-- The operating system exercises: a kernel's scheduler and environments (scheduler/, an extension of
-- the JOS teaching kernel), a file system for FUSE (file_system/) and a shell (shell/).
--
-- The kernel. Environments live in the array `envs` of 1024 slots; a free list links the free ones. An
-- identifier names its slot by its lower ten bits and a generation by the others, so that `envid2env`
-- can refuse a stale one. `sched.c` keeps identifiers in four rings, a multi-level feedback queue:
-- `env_alloc` adds the new environment to the queue of its parent, `prioridad_MLFQ` moves what it runs
-- one queue down, and after 50 executions `sched_yield` promotes all to the first queue. The system
-- calls of `syscall.c` go through `envid2env`, and change slots, queues and page tables.
-- - Kernel.Types models: scheduler/inc/env.h, inc/trap.h, kern/sched.h, kern/cpu.h, inc/memlayout.h. The state
--   is the record `Kernel`; a pointer into `envs` or `pages` is its index, NULL is `none`.
-- - Kernel.Queue models: the rings of scheduler/kern/sched.c, under the source's names. Its children read a
--   ring as the list `contenido` of its identifiers.
-- - Kernel.Run, Kernel.Sched models: `env_run` of scheduler/kern/env.c, `sched_halt`, the two policies and
--   `sched_yield` of scheduler/kern/sched.c. A function that may not return gives a `Control`.
-- - Kernel.Memory models: page allocation and page tables of scheduler/kern/pmap.c, over the words of physical
--   memory; `none` is a panic.
-- - Kernel.Env models: scheduler/kern/env.c, with its loader in Kernel.Load, where a binary is its program
--   headers, each with its bytes. Kernel.Syscall, Kernel.Pages and Kernel.Ipc model the calls of
--   scheduler/kern/syscall.c, and Kernel.Pages also `page_init` and `user_mem_check`. Kernel.Dispatch is
--   `syscall` itself, and Kernel.Trap models: scheduler/kern/trap.c, over a `Maquina` that gives CR2, the
--   console's character and the writes to user memory; how words are read there is a `Lectura`.
-- - Kernel.Sched.Fairness is about the turns in a row that `round_robin` gives; Kernel.Trap.Stack about the
--   exception stack.
--
-- The file system. A table of 1024 inodes is searched by path; a directory's content is the text of its
-- names, each with a '\n' behind it. An entry that does not fit the buffer of `fisopfs_readdir` (1024
-- bytes) or of `remove_inode` (257) is `none`. The '\n' and NUL that `add_dentry_to_content` puts behind
-- the name in the path that libfuse gave are not kept; `fisopfs_getattr` cuts a path at its '\n'.
-- - FileSystem.Types models: file_system/fs.h, with C strings and heap blocks as lists of bytes. The C library
--   is the record `Libc`: what `calloc` and `realloc` give, with their documented laws, and the time.
-- - FileSystem.Inodes, FileSystem.Directory models: file_system/fs.c. FileSystem.Operations:
--   file_system/fisopfs.c; `none` is an access outside a block.
-- - FileSystem.Disk models: serialize and deserialize of file_system/fs.c, fisopfs_init and fisopfs_destroy of
--   file_system/fisopfs.c. `Formato` is how the compiler lays out an inode, `Disco` how the system answers
--   to each read and write; a layout is in bytes. FileSystem.Disk.Layout, Image and Reload: theorems on the file.
-- - FileSystem.Content, Reading, Lookup, Creation, Making and Directory.*: theorems, which read a file as
--   its first `size` bytes and a directory as a list of names.
--
-- The shell. A line is read, tried as a built-in command, parsed into a tree of commands and run in a
-- child process. What a process asks of the system is a tree of calls with what follows for each answer,
-- so that a theorem can speak of all answers.
-- - Shell.Types models: shell/types.h, shell/createcmd.c and the sizes of shell/defs.h. Shell.Text:
--   shell/utils.c. Shell.Parsing: shell/parsing.c, with `getenv`, `realloc` and the decimal text of a number
--   as the record `Proceso`; a write behind an array is `desborda`.
-- - Shell.Calls is the tree of calls. Shell.Exec models: shell/exec.c. Shell.Running models: shell/builtin.c,
--   freecmd.c, printstatus.c, runcmd.c; the macros on a wait status are the record `Macros`. Shell.Loop
--   models: shell/readline.c and shell/sh.c.
-- - Shell.Parsing.* are theorems on lines of words and pipes; Shell.Descriptors.* on the open descriptors of
--   the programs that are started: `Todos` speaks of all answers that the system can give, `lanzados` of the
--   run without a failure; Shell.Loop.Lines on the loop.
--
-- The user library. UserLib.Calls is the tree of the system calls of an environment, and UserLib.Fork
-- models: scheduler/lib/fork.c and scheduler/lib/pgfault.c over what the environment reads of its page
-- tables (`Vista`; the entry of a page is read before the page is shared). The assignment to `thisenv` and
-- to the handler's pointer is left out. UserLib.Sharing is about what `fork` shares and returns.
-- UserLib.Blocks and UserLib.Strings model: scheduler/lib/string.c, on memory by address (the `rep`
-- instructions of its assembly as loops of steps) and on strings as lists; UserLib.Blocks.Overlap is about
-- blocks that overlap. The value of `strtol` wraps around at 32 bits.
-- UserLib.Format.* model: scheduler/lib/printfmt.c and scheduler/lib/printf.c, for any `putch` on any
-- state: Numbers (`printnum`), Orders (flags, width and precision), Errors (`error_string`), Run
-- (`vprintfmt`), Buffer (`vsnprintf`) and Lines (`vcprintf`). Arguments are typed; one that is missing
-- or of another type gives no result. UserLib.Readline models: scheduler/lib/readline.c. Lift, Any,
-- Fuel, Ends, Digits, Readline.Editing and the ends of Buffer and Lines: theorems.
--
-- The lock of the kernel. Kernel.Lock models scheduler/kern/spinlock.c, each access to a field as a step of
-- one processor, in any interleaving; Kernel.Lock.Holder and Exclusion: theorems.
--
-- The console. What a key or the serial port gives goes through the ring of input; what is printed goes to
-- the ports and to the screen.
-- - Kernel.Console.Ports, Screen, Keyboard (with the tables of Keyboard.Maps) and Ring model:
--   scheduler/kern/console.c. `Puertos` stands for the instructions `inb` and `outb`, `Equipo` holds
--   the static variables but the ring. Kernel.Console.Print models scheduler/kern/printf.c,
--   Kernel.Console.Init the start, with scheduler/kern/picirq.c. Kernel.Console.Fifo, Typing, Roll and
--   Paper: theorems, which read the ring as a queue and the screen as the lower end of a roll of
--   paper.
--
-- Bounds. Loops over an array recurse on the number of cells left. The loop of `promover_cola` reads its
-- bound anew and has fuel for one test more than there are entries, which is enough as long as the four
-- queues hold at most 1024 identifiers. The loops over a directory's text have fuel for one round more
-- than there are bytes, and every round moves on by one at least; likewise the loops of the shell's parser
-- over a line, and that over the input. A line of the shell has less than 1,023 bytes and no NUL (for
-- longer ones `split_line` reads behind the buffer), and memory for a command is always found. The value
-- of HOME and the line are not changed by `cd`. Words wrap at their width; the `int` counters of the
-- rings, whose overflow C leaves undefined, are exact, and so are the widths of the formatted output. The
-- loops over a format have fuel for one round more than it has characters, which is enough; that over
-- the digits of a number of at most 64 bits has fuel for 64. How much input a device has is not bounded:
-- the loops over it take their fuel as an argument. The waits for a port are bounded in the source.
--
-- Not modelled: the processor's tables and boot of the kernel, and its devices but the console and the
-- interrupt controller; the rest of the user library, and the user programs; the handler of SIGCHLD in
-- the shell. The messages that the kernel prints are left out everywhere but in the console's own
-- files.
pub mod Prelude
pub mod Kernel
pub mod FileSystem
pub mod Shell
pub mod UserLib
