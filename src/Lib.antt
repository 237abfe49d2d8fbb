-- ===== src/Lib.antt =====
-- Verification of the programs of this repository, the solutions to exercises of "The Linux
-- Programming Interface". Paths below are from the repository's root.
--
-- Base has the shared names: numbers, tests, lists.
--
-- FreeList is tlpi-solutions/ex07-2/xmalloc.c up to its free list: the headers of the blocks, as one
-- map from addresses for each field, and `block_init`, `block_split`, `block_merge`,
-- `freelist_insert`, `freelist_remove`, `freelist_get_free_block`, `freelist_size`, `freelist_item`
-- and `is_freelist_sane`, each under its own name. An `assert` that fails is a result of its own,
-- and so is a split whose two headers overlap, which the maps cannot follow. `size_t` arithmetic is
-- modulo 2 ^ 64. FreeList.Chain has the list that the links stand for, FreeList.Layout where the
-- blocks lie, FreeList.Bytes the set of bytes that they take up; the other children have the
-- theorems, one file for each operation.
--
-- Xmalloc is `xmalloc` and `xfree` of the same file. They use `sbrk` and `brk` of the C library, the
-- parameter `ProgramBreak`, of which `IsProgramBreak` states what the manual page does.
-- Xmalloc.Alloc and Xmalloc.Extend have the ways out of `xmalloc`, Xmalloc.Free the merges of
-- `xfree`, and Xmalloc.Release the whole call.
--
-- Io is `writep` of tlpi-solutions/mylib/mylib.c and `xreadv` and `xwritev` of
-- tlpi-solutions/ex05-7/rwv.c, over the parameter `Descriptors` for read(2) and write(2).
--
-- Setenv is `xunsetenv` and `xsetenv` of tlpi-solutions/ex06-3/setenv.c: the environment as a list
-- of addresses of strings, with the static list of the strings that `xsetenv` allocated, over the
-- parameter `Libc` for getenv(3), putenv(3), malloc(3) and realloc(3).
--
-- Sockets is `readn` and `writen` of tlpi-dist/sockets/rdwrn.c and `readLine`, here `read_line`, of
-- tlpi-dist/sockets/read_line.c, over the parameter `Streams` for read(2) and write(2) with calls
-- that are interrupted. It uses the memory of Io.
--
-- LineBuf is `readLineBufInit` and `readLineBuf` of tlpi-dist/sockets/read_line_buf.c, here
-- `read_line_buf_init` and `read_line_buf`, over the same `Streams`. LineBuf.Refill has the
-- characters that are still to come, LineBuf.Line what a call takes of them, and LineBuf.Same
-- compares it with `readLine`.
--
-- GetNum is `getNum`, `getLong` and `getInt` of tlpi-dist/lib/get_num.c, here `get_num`, `get_long`
-- and `get_int`, over the parameter `strtol`.
--
-- Initgroups is `xinitgroups` of tlpi-solutions/ex09-3/initgroups.c over the entries of the group
-- file, with the user id and the groups of the process, and the parameter `Libc` for malloc(3),
-- seteuid(2) and setgroups(2).
--
-- Dtree is tlpi-dist/inotify/inotify_dtree.c, over the parameter `Kernel`: in Dtree the watch cache
-- and the root paths, in Dtree.Watching the functions for subtrees, in Dtree.Events
-- `processNextInotifyEvent`, one function for each of its branches, and `processInotifyEvents`, in
-- Dtree.Commands `executeCommand` and the main loop. Dtree.Lookup has the cache as a map from watch
-- descriptors to pathnames, Dtree.Adding, Dtree.Rebuild, Dtree.Total, Dtree.Zap and Dtree.Rename
-- what the functions do to that map, Dtree.Invariant and Dtree.Main that the watch descriptors stay
-- apart, Dtree.Consistency what the check of the cache finds, and Dtree.Rounds and Dtree.Progress
-- when the loop over the events ends.
--
-- Acl is `parseEntrySpec` and `parseACL` of tlpi-dist/acl/acl_update.c, here `parse_entry_spec` and
-- `parse_acl`, and `userIdFromName` and `groupIdFromName` of
-- tlpi-dist/users_groups/ugid_functions.c, which are `id_from_name`, over parameters for strtol(3),
-- getpwnam(3) and getgrnam(3). Acl.Print writes a list of entries out, Acl.RoundTrip reads it back,
-- Acl.Checks has what the parser lets through, and Acl.Ids the numbers as names. Acl.Update is
-- `findEntry`, `setPerms` and `updateACL` of the same file, here `find_entry`, `set_perms` and
-- `update_acl`, over the parameter `LibAcl` for libacl, which Acl.Library describes with its laws.
-- Acl.Settling says when a call on fuel ends, Acl.Finding what the search finds, Acl.Granted what
-- the ACL grants before and after, Acl.Applying what one entry does to it, Acl.Outcome why the call
-- exits, and Acl.Updating the whole call.
--
-- Proctree is `proctree_build_tree` of tlpi-solutions/ex12-2/proctree.c over an array of processes,
-- with `CHILD_MAX` as `child_max` and `_proc_cmp` as `proc_cmp`, and the parameters `bsearch` and
-- `realloc` for bsearch(3) and realloc(3). Proctree.Linking has what the links of one process
-- change, Proctree.Entries the entries of the array after each round, Proctree.Compare the order of
-- the ids, and Proctree.Building the whole tree.
--
-- Sems is tlpi-dist/svsem/binary_sems.c: `initSemAvailable`, `initSemInUse`, `reserveSem` and
-- `releaseSem` over the parameter `Semaphores` for semop(2) and semctl(2). A call of `semop` may
-- wait or be interrupted, so it is a relation. Sems.Moves has what the calls do to the values.
--
-- Xfer is tlpi-dist/svshm/svshm_xfr_writer.c and svshm_xfr_reader.c, the two programs that pass
-- bytes on through a segment of shared memory: `WriterStep` and `ReaderStep` are their steps, which
-- Sems and the parameter `Files` for read(2) and write(2) allow, and `Reach` takes them in any
-- order. The counters wrap modulo 2 ^ 32. The calls that create, attach, detach and remove the
-- segment are left out. Xfer.Phase has the phases of the protocol, Xfer.Writing, Xfer.Reading and
-- Xfer.Reachable that the steps keep to them, Xfer.Order and Xfer.Progress the theorems, with the
-- rank that the steps lower in Xfer.Rank.
--
-- Examples has runs of the functions, and the theorems at inputs that meet their hypotheses.
--
-- Loops over linked nodes, and loops that retry a system call, run on fuel. The theorems give the
-- fuel that is enough: one more than the number of nodes, or than the number of bytes with the
-- number of interruptions still to come added. The loop over the commas of a text has one more than
-- the length of the text, and that over the events of a buffer two for each event and two more.
-- `update_acl` does the same from some fuel on, which depends on the ACL in memory. Not modelled are
-- the other programs of tlpi-solutions and those of tlpi-dist, most of which call the system and
-- print, and the tests of the files above.
pub mod Base
pub mod Acl
pub mod Dtree
pub mod FreeList
pub mod Xfer
pub mod Xmalloc
pub mod GetNum
pub mod Initgroups
pub mod Io
pub mod LineBuf
pub mod Proctree
pub mod Sems
pub mod Setenv
pub mod Sockets
pub mod Examples
