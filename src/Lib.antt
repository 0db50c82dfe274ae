-- ===== src/Lib.antt =====
-- A collection of small UNIX programs in C and C++, one folder each: a pipeline cat (pcat), word
-- counters over pipes (wc, wc_err), a shell (myshell), a relay race of processes (stadium),
-- hunters and their cook (zachet), a chat over shared memory (tg), a copier (cp), chiefs and
-- couriers round a table (pizza), a listing of directories (ls), processes that draw lots for
-- symbols (33_bogatirya), links (ln), and a copier by mapped memory (cp_mmap). The programs
-- share no code; a module here models one program, and its children prove what holds of it.
--
-- Base, with Base/Tests, Base/Lists, Base/Text, Base/Decimal and Base/Family: shared names,
--   Boolean tests on numbers, lists with native indices, families of processes, the C library's
--   isspace and the pieces and words of a text.
-- Kernel: an interface over an abstract state of the operating system, with what POSIX documents
--   of read and write. Kernel/Memory is a small system that meets it, for concrete runs.
-- Transfer, Transfer/Write: the loop `while (written < read_bytes)` of pcat/pcat.c, which
--   wc/wc.c has word for word. It takes a number of rounds; one more than the buffer's length is
--   enough, since POSIX writes at least a byte of what it accepts.
-- Pcat, Pcat/Copy: pcat/pcat.c, `copy_file`. Its rounds are bounded by an argument; one more
--   than the bytes that the source still holds is enough. Pcat/Main is `main`: the child and the
--   parent have a state each, and the parent reads what the child has written, once it has
--   closed its own writing end. Pcat/Files is
--   about the child and Pcat/Pipe about both.
-- Wc, Wc/Counts, Wc/Copy: wc/wc.c, `copy_file` with its counters; `size_t` sums are taken modulo
--   2 ^ 64. Wc/Main is `main`, with the child's descriptors; the time is left out.
-- Stadium, Stadium/Order, Stadium/Race: stadium/stadium.c. The processes `judge` and `runner`
--   are a step relation over the message queue, which is a list of statuses for each type of
--   message; any process may take the next step, and any call may fail. `main` is the state at
--   the start.
-- Zachet: zachet/zachet.c, `cook`. The received messages are a list, which ends where msgrcv
--   fails; the outcome of each msgsnd is a function of its number. Zachet/Choice is about the
--   victim, Zachet/Days about one day, Zachet/End about the whole loop, for which sixteen days
--   are enough. Zachet/Hunter is the function `hunter`, its random number an argument and msgrcv
--   a parameter, and Zachet/Delivery joins the two. That each living hunter sends one message a
--   day, in whatever order, is not modelled: the list of received messages is arbitrary. Their
--   senders are taken to be hunters: an id out of range, which the source would use as an index,
--   is passed over.
-- MyShell: myshell/myshell.c. MyShell/Parse has the loop of `main` that cuts a line at its bars,
--   `parse_argv`, `get_redirection` and the loop of `main` over the redirections. A pointer into
--   the line buffer is an offset, and a function sees the bytes from its position to the end of
--   the buffer, so that leaving it is an outcome of its own. MyShell/Strings, MyShell/Commands,
--   MyShell/Arguments, MyShell/Argv and MyShell/Redirection prove what the parsers find.
--   `get_redirection` takes a number of rounds, of which each passes a byte at least.
--   MyShell/Run is `run_commands`: a table of descriptors is a function, and pipe, open and fork
--   are a record of functions with what is documented of new descriptors. MyShell/Wiring is
--   about the descriptors of one command's process, MyShell/Pipeline about one round,
--   MyShell/Rounds and MyShell/Waits about all rounds. MyShell/Prompt is `main`: fgets over a
--   list of bytes, one line, and the loop over the lines, which takes a round for each line;
--   more rounds than the input has bytes are enough. MyShell/Terminated, MyShell/Plain and
--   MyShell/Fits lead from a line to the commands that run_commands gets, MyShell/Lines is about
--   a line as a whole and MyShell/Sessions about the loop.
-- Tg: tg/tg.c. The shared memory is a table of users and a list of message slots; the queued
--   signals are a list, and the processes that sigqueue reaches a function. `add_user`,
--   `Destroy` and the sends hold the mutex and are one step each; `msg_handler`, which takes no
--   mutex, is taken as one step too. Tg/Command is `HandleCmd`, with Base/Decimal for what the
--   C++ library reads and writes as a number. Tg/Users, Tg/Slots, Tg/Broadcast and Tg/Tell are
--   about `add_user` and `Destroy`, `send_msg`, "/say" and "/tell"; Tg/Session has main's loop,
--   over a list of lines, and Tg/Delivery the steps of all processes. Tg/Join has both `Init`,
--   `init_signals`, `init_shared` and all of `Destroy`, over the names of the shared memories
--   and of the mutexes. Which calls fail is an argument, and what sigwaitinfo returns is a list.
--   Tg/Joining is about a process that joins and one that leaves, Tg/Founding about a founder
--   and the first to join. Left out are the number that main reads with atoi and the descriptor
--   of the shared memory.
-- Cp: cp/cp.c, `cp_parse_arguments`, `get_base` and the loop of `main` as far as the target of
--   each copy. getopt_long, stat and calloc are arguments: the options it finds, whether the
--   target is a folder, whether there is memory. An access outside an array is an outcome of its
--   own. Cp/Base is about `get_base`, Cp/Arguments and Cp/Names about the shared buffer. Cp/Copy
--   is `copy_file` over the Kernel's read and write, with what open and stat return as an
--   argument and the standard input as a list; Cp/Answer is about it. For a target that takes
--   the whole of a write, its loop is that of pcat's copy_file; Cp/Answer also says what it does
--   for another.
-- WcErr: wc_err/wc_err.c, `count_info` and the select loop of `copy_files`, which runs over a
--   list of rounds: what select and the reads behind it find. FD_SET of a closed descriptor is
--   an outcome of its own. WcErr/Counts is about the counters, which it compares with those of
--   Wc, WcErr/Select and WcErr/Streams about the loop. `main` (pipe, fork, exec, time) is not
--   modelled.
-- Pizza: pizza/pizza.c, `run_chief` and `run_courier`, each as a relation of moves over the
--   shared table and the values of the semaphores; any process may move next, and one whose fork
--   failed never moves. A move goes up to one call on a semaphore, one read of the couriers'
--   unprotected test, or the whole of what stands between sem_wait and sem_post of the table.
--   The buffer is kept place by place. Pizza/Balance relates the semaphores and counters to the
--   processes, over sums of Base/Family, Pizza/Safety is about the places on the table, and
--   Pizza/Deadlock about couriers who leave too early. `main` is the state at the start, and
--   `dump_table` only prints.
-- Ls: ls/ls.c. Ls has `get_flags` and `compare_ents`, Ls/Entries `create_ents_arr` with what the
--   C library answers as a record of functions, Ls/Limits `get_limits`, Ls/Print
--   `print_file_info` as a list of bytes and Ls/Tree `print_dir_info`. Ls/Order is about the
--   comparison, Ls/Columns about the long listing; Ls/Sort is a sort for concrete runs. A name
--   of an owner is what the pointer that is kept shows when the array is complete; Ls/Listing is
--   about what `create_ents_arr` lists. `print_dir_info` takes a number of rounds, one for each
--   level of directories.
-- Bogatirya: 33_bogatirya/33_bogatirya.c, `bogatir` as far as the symbol of a process. The
--   values received from the others are a list, std::sort is a record with its documented laws,
--   and what lies behind the array is an argument. Bogatirya/Unique is about the verdict of a
--   round, which ends the drawing or not, and Bogatirya/Ranks about the symbols.
--   Bogatirya/Printing is the rest of `bogatir` and main's broadcast, a step relation over the
--   queue, which is a list of values for each process and one of messages for main. It begins
--   when all have their ranks and the queue is empty. Bogatirya/Turns says where the turn to
--   print may be, Bogatirya/Followers, Bogatirya/Leader and Bogatirya/Broadcast how each kind of
--   step passes it on, Bogatirya/Ending what holds after the leader's last message, and
--   Bogatirya/Song what is printed. Bogatirya/Schedule and Bogatirya/Completes have the run in
--   which no call fails and everybody takes his message at once.
-- Ln: ln/ln.c, with `main`. The file system is a record of calls over its states; lstat and
--   readlink may see different states, and perror and free may change errno. Ln/Link is about
--   `read_link` and a link made before.
-- CpMmap: cp_mmap/cp_mmap.c, `main`, with what its calls return as a record,
--   and whether the two paths name one file. CpMmap/Release is
--   about what it releases and what it leaves in the target.
pub mod Base
pub mod Kernel
pub mod Transfer
pub mod Pcat
pub mod Wc
pub mod Stadium
pub mod Zachet
pub mod MyShell
pub mod Tg
pub mod Cp
pub mod WcErr
pub mod Pizza
pub mod Ls
pub mod Bogatirya
pub mod Ln
pub mod CpMmap
