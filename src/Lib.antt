-- ===== src/Lib.antt =====
-- multipath-tools: device mapper multipathing. The daemon `multipathd` watches the paths to a storage
-- device, groups them, tells the kernel which paths and which group to use, and decides for how long
-- I/O is queued when no path is left.
--
-- Parts, and the files that model them:
-- - Structs: libmultipath/structs.h, structs.c. `struct path`, `struct pathgroup` and
--   `struct multipath` as records, with the fields that the modelled code uses. Paths are shared by
--   address: a `Heap` gives the path at an address, and vectors of paths are lists of addresses. What
--   is sent to the device mapper is logged in the map (`sent`, newest first); `replies` says which of
--   the coming messages succeed.
-- - Vector: libmpathutil/vector.c. A vector is the list of its slots, NULL being `none`.
-- - Switchgroup: libmultipath/switchgroup.c. Priority of a group, choice of the best group.
-- - Pgpolicy: libmultipath/pgpolicies.c. Sorting of groups; Pgpolicy.Groups has the grouping policies
--   and `group_paths`. It uses Vector and Switchgroup.
-- - Features: `add_feature` and `remove_feature` of libmultipath/structs.c.
-- - Recovery: queueing and recovery mode, from libmultipath/structs_vec.c, `dm_queue_if_no_path` of
--   libmultipath/devmapper.c and `retry_count_tick` of multipathd/main.c. It uses Features.
-- - Alias: libmultipath/alias.c. Names of numbers, bindings, the search for a free number.
-- - Blacklist: libmultipath/blacklist.c. Blacklist.Filter has the filters, Blacklist.Merge the removal
--   of doubles.
-- - Checking: multipathd/main.c, what follows from one result of a path checker; Checking.Update has
--   `update_path_state`, Checking.Schedule when a path is checked, and Checking.Intervals the check
--   intervals of libmultipath/config.c. It uses Recovery for the queueing mode.
-- - Uevent: libmultipath/uevent.c, which uevents are discarded, filtered and merged; Uevent.Queue has
--   the loops over the queue. It uses Blacklist for the names of devices.
-- - Failback: multipathd/main.c, when the daemon switches to another group or reloads the map, and the
--   tick functions of a map. It uses Switchgroup and, for the order of the groups, Pgpolicy.
-- - Strbuf: libmpathutil/strbuf.c, string buffers that grow.
-- - Members: `update_mpp_paths` and `sync_map_state` of libmultipath/structs_vec.c, the paths of a map
--   and their states in the kernel. It uses Pgpolicy for the storing of paths.
-- - Strings: copies of strings into fixed buffers, from libmpathutil/util.c.
-- - Dmparser: libmultipath/dmparser.c and `get_word` of libmpathutil/util.c. Dmparser.Assemble writes the
--   table of a map for the device mapper, Dmparser.Disassemble reads one, and Dmparser.Status
--   its status line. It uses Features, and Members to find paths by numbers.
-- - Configure: libmultipath/configure.c, what `select_action` decides to do with a map. Configure.Pgcmp
--   compares the groups. It uses Features, and the tables of Dmparser.
-- - Runner: libmpathutil/runner.c and the shared pointers of libmpathutil/util.c, a thread that works for
--   a caller. A step is one access to what they share.
-- - AsyncChecker: libmultipath/async_checker.c, path checkers that run in a thread of Runner.
-- - Base: numbers, lists, strings, integers and code that allocates.
-- - Tests: the theorems on concrete inputs.
--
-- Conventions: a function has the name of the C function. A vector of pointers that are never NULL is
-- a list. Signed fields are ℤ; counters and other numbers that never fall below 0 are natural numbers.
-- The statistics counters, the retry counter, `adjust_int`, `goal_index` and the sizes in Strbuf and
-- Strings wrap or are tested as in C; elsewhere overflow is not modelled. In Base.Try the outcomes of
-- allocations are an argument; in Dmparser and Configure memory suffices. Loops are recursion on the
-- list or on the number of slots.
-- `format_loop` and `show_digits` have the number itself as fuel, which falls with every digit;
-- `merge_loop` the length of the vector, which falls with every entry; `filter_loop` the number of
-- events in the queue and `merge_all` that of new elements, since every round leaves one behind; and
-- `adjust_loop` 33 rounds, after which a loop that goes on has reached 0 and does not end.
--
-- Code from outside is a parameter: regular expressions (`matches`, `compiles` in Blacklist), the
-- question whether the device mapper knows an alias already (`taken` in Alias), `realloc` in Strbuf, and
-- the answers of checkers, sysfs, clock and SCSI commands in one check of a path (`Probe` in Checking), and
-- the udev properties of a map in Configure.
-- The result of `update_prio` and the answer of `followover_should_failback` are arguments in Failback,
-- and so are in Uevent.Queue the calls that discard an event and find its WWID.
--
-- Not modelled: threads and locks but those of Runner, sockets, sysfs, ioctl and SCSI commands, the
-- checkers and prioritizers, parsing and printing of the configuration, reception of uevents, logging
-- and the release of memory.
pub mod Base
pub mod Structs
pub mod Switchgroup
pub mod Vector
pub mod Pgpolicy
pub mod Features
pub mod Recovery
pub mod Alias
pub mod Blacklist
pub mod Checking
pub mod Failback
pub mod Uevent
pub mod Strbuf
pub mod Members
pub mod Strings
pub mod Dmparser
pub mod Runner
pub mod AsyncChecker
pub mod Configure
pub mod Tests
