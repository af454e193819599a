-- ===== src/Lib.antt =====
-- lazybsd: a model of the parts of the FreeBSD network stack's user-space port that are its own
-- logic, with the theorems that make them correct.
--
-- * `Callout` (`bsd/lib/lazybsd_kern_timeout.c`): timers on a hashed wheel. `Callout.State` has
--   `struct callout_cpu` as one record, with the callouts in a store (an address to a `Callout`),
--   each bucket of the wheel as a list of addresses, and `cc_next`, `cc_bucket` and the two entities
--   of `cc_exec_entity`. `Callout.Init` has `callout_callwheel_init`, `callout_cpu_init`,
--   `callout_init` and `_callout_init_lock`; `Callout.Api` has `callout_reset_tick_on` (`reset`),
--   `callout_schedule`, `callout_schedule_on` and `_callout_stop_safe` (`stop`); `Callout.Softclock`
--   has `callout_tick`, `softclock_call_cc` (`call_cc`), `softclock` and the first lines of
--   `lazybsd_hardclock`. A callback, a drain function and whoever runs while a lock is taken are the
--   parameter `World`: each answers with the calls of the interface that it makes, which run on the
--   state at that point, so callouts come and go during the walk of a bucket.
--   `Callout.Invariant` has the invariant, `Callout.Stable` what the operations keep in general.
--
-- * `Env` (`bsd/lib/lazybsd_kern_environment.c`): `Env.Lookup` has the lookups in the static and the
--   dynamic environment, `kenv_acquire` and `kenv_release`; `Env.Number` has `getenv_quad` and the
--   functions that cast its result; `Env.Array` has `getenv_array`. A string is the list of its
--   characters, a 64-bit number its pattern; `strtoq` and the host's `getenv` are parameters.
--
-- * `Subr` (`bsd/lib/lazybsd_kern_subr.c`): `Subr.Hash` has the sizes of hash tables
--   (`hashinit_flags`, `phashinit_flags`, `hashdestroy`), `Subr.Uio` has `uiomove` and `copyinuio`;
--   `malloc`, `copyin` and `copyout` are parameters, and copies are listed, not carried out.
--
-- * `Sock` (`bsd/lib/lazybsd_socket.c`, `lazybsd_socket.h`): `Sock.Address` has the conversion of
--   socket addresses on a memory of bytes, `Sock.Options` the tables of socket options with
--   `lazybsd_getsockopt` and `lazybsd_setsockopt`, `Sock.Ioctl` the table of requests with
--   `lazybsd_ioctl`, `Sock.Message`, `Sock.Msghdr` and `Sock.Messages` the control messages,
--   `struct msghdr`, `lazybsd_sendmsg` and `lazybsd_recvmsg`, and `Sock.Calls` and `Sock.Names` the
--   other calls, on the process's memory, `errno` and the calls of the kernel that it makes
--   (`Sock.Process`). The kernel's numbers and functions are parameters.
--
-- * `Errno` (`src/lazybsd_errno.c`, `src/lazybsd_errno.h`): `lazybsd_os_errno`, which the calls of the
--   socket interface end with when they fail.
--
-- * `Printf` (`bsd/lib/lazybsd_subr_prf.c`): `Printf.Number` has `ksprintn`, `Printf.Buffer` the
--   buffer of `putbuf`, `kputchar` and the end of `vprintf`, `Printf.Directive` how `kvprintf` reads a
--   directive, `Printf.Convert` its conversions, and `Printf.Format` its loop and `vprintf`. What is
--   shown is the list of the calls of the console; what C leaves undefined, such as an argument of
--   another type, is an outcome. `hex2ascii` and `toupper` are parameters.
--
-- * `Veth` (`bsd/lib/lazybsd_veth.c`): `Veth.Zc` has the buffers for sending without a copy,
--   `Veth.Packet` the functions on mbufs that the DPDK driver calls, `Veth.Prefix` the IPv6 prefix
--   mask, `Veth.Interface` the configuration and the requests for addresses, and `Veth.Attach` the
--   interface's flags, `lazybsd_veth_attach` and `lazybsd_veth_detach`. A chain of mbufs is a list or,
--   where pointers matter, a store by address; the kernel's allocators, `ifioctl`, `inet_pton` and the
--   registration of a port are parameters.
--
-- * `Kevent` (`bsd/lib/lazybsd_kevent.c`): `kevent_copyin`, `kevent_copyout`, `lazybsd_kevent_do_each`,
--   `lazybsd_kevent` and `lazybsd_kqueue`. What `kern_kevent` and `kern_kqueue` do is a parameter: the
--   calls of the two copy functions, one after the other, an error and a value.
--
-- * `Driver` (`src/lazybsd_dpdk.cc`, `src/lazybsd_memory.cc`): `Driver.Filter` has `protocol_filter` and
--   the bitmaps of ports, `Driver.Dispatch` what becomes of a received packet (`process_packets`),
--   `Driver.Input` how the stack gets it (`lazybsd_veth_input`), `Driver.Send` the queue of a port
--   (`send_burst`, `send_single_packet`, `lazybsd_dpdk_if_send`, the drain in `main_loop`), `Driver.Copying` the `lazybsd_dpdk_if_send` of the build
--   without LAZYBSD_USE_PAGE_ARRAY, `Driver.Offload` what the NIC is asked for (`lazybsd_offload_set`),
--   `Driver.TxRing` the mbufs that the NIC may still read, `Driver.Pages` the stack of free pages,
--   `Driver.Rss` the Toeplitz hash and the table of queues, `Driver.Lcores` the queues that a process polls
--   (`init_lcore_conf`), and `Driver.Messages` the messages of other programs (`handle_msg`,
--   `process_msg_ring`). DPDK is a parameter: what its rings,
--   pools and the NIC answer. A little-endian host is assumed.
--
-- * `Start` (`bsd/lib/lazybsd_main.c`): `sysinit_add` and `mi_startup`, the sort and the calls of the
--   initialisers. The sets that an initialiser adds while it runs are a parameter.
--
-- * `Times` (`bsd/lib/lazybsd_patch.c`): the times `itimerfix`, `itimerdecr`, `timevaladd`, `timevalsub`,
--   `tvtohz`, and the limits `ratecheck` and `ppsratecheck`. The clock is a parameter.
--
-- * `Cred` (`bsd/lib/lazybsd_patch.c`): `chglimit`, `chgproccnt`, `chgsbsize`, `chgptscnt`, `chgkqcnt`,
--   `chgumtxcnt`, and the binary
--   search of `groupmember`.
--
-- * `Route` (`bsd/lib/lazybsd_route.c`): routing messages. `Route.Xaddrs` has `rt_xaddrs`, which finds the
--   addresses of a message, `Route.Buffer` has `rtsock_msg_buffer`, which measures or writes one, and `Route.Clean`
--   has `cleanup_xaddrs`, which brings the addresses of a message to a standard form in their place.
--
-- `Prelude` has what the modules share: tests, list functions, signed numbers and 32-bit words.
--
-- Numbers: `ticks`, `cc_softticks` and `c_time` are 32-bit words that wrap round; `behind` reads
-- their difference as a signed word.
--
-- Fuel: `tick_loop` needs one round more than the clock is ahead; `stop_again` needs one round when
-- the callout is not running or the caller does not wait; `bucket_loop` takes one round for each
-- callout that it meets, and `Callout.Softclock.Ends` shows when that many are enough. `array_loop`
-- gets the length of the value, since each number takes a character; `uiomove` gets the number of
-- bytes and of segments; `ksprintn` gets
-- 64 rounds for 64 bits, `directive` and `format_loop` the number of characters that are left;
-- `groupmember` gets one round for each group;
-- `double_past` gets the number of elements; `mi_startup` needs one sort more than there are
-- initialisers; `copy_loop` one round more than there are bytes;
-- `protocol_filter_ip` gets one round more than twice the bytes of the packet.
--
-- Not modelled: the other initialisation of DPDK and the KNI devices of `src/lazybsd_dpdk.cc`,
-- and the other C++ files, which stand on third-party
-- parsers; the time counters; assertions (`KASSERT`); the functions that do nothing or answer a constant because
-- the stack runs on one thread (`bsd/lib/lazybsd_lock.c`, `lazybsd_kern_condvar.c`,
-- `lazybsd_kern_synch.c`, `lazybsd_subr_epoch.c`, `lazybsd_kern_intr.c`), with the lock flags that the
-- initialisers of the first pass on; the other functions of
-- `lazybsd_patch.c`, mostly stubs, and the other initialisers of `lazybsd_main.c`; the other functions of
-- `lazybsd_route.c`, which are calls of the routing tables, of the lookups and of the jails;
-- the calls of the host in `lazybsd_host.c`; and the hash of `lazybsd_crypto.c`,
-- a copy of a published one.
pub mod Callout
pub mod Cred
pub mod Driver
pub mod Env
pub mod Errno
pub mod Kevent
pub mod Prelude
pub mod Printf
pub mod Route
pub mod Sock
pub mod Start
pub mod Subr
pub mod Times
pub mod Veth
