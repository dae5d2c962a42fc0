-- ===== src/Lib.antt =====
-- A model of the repository's C code, unp/unpv13e, the library and programs of network programming,
-- and of its own C++ containers and algorithms.
--
-- Parts and files.
-- - Common: the shared names, Boolean tests, flags of one bit, lists over the native numbers,
--   decimal numbers.
-- - Gai: unp/unpv13e/libgai, the resolver interface. Defs and Eai hold addrinfo.h and gai_hdr.h,
--   Check is ga_echeck.c, Search is ga_nsearch.c, Struct is ga_aistruct.c and ga_clone.c, Port is
--   ga_port.c, Serv is ga_serv.c and freeaddrinfo.c, Unix is ga_unix.c, Lookup and Call are
--   getaddrinfo.c: the loop over the searches, and the call around it. Name is getnameinfo.c and
--   gn_ipv46.c. Leaks is about the memory of a call, Call/Quit about its end by err_quit.
--   The list linked by ai_next is a List of AddrInfo, the tail pointer aipnext its end. World is
--   the state beside it: the allocator, which may refuse any request, the number of blocks in use,
--   and the paths removed by unlink. The jump to the label bad is the constructor bad of Next.
-- - Io: unp/unpv13e/lib/readn.c, writen.c and readline.c. A descriptor is a list of events: chunks
--   of bytes, signals (EINTR) and failures; Io/Events says what read makes of them, Io/Writen what
--   write does. Io/Readline/Reentrant is unp/unpv13e/server/readline_r.c, and Io/Readline/Threads
--   unp/unpv13e/threads/readline.c, with calls of several threads in any order.
-- - Server/Prefork: unp/unpv13e/server/serv05.c, the parent of preforked children. A turn of its
--   loop takes what select reports and gives the next state or the end of the process.
-- - Server/Select: unp/unpv13e/tcpcliserv/tcpservselect01.c. A turn of the loop takes what select,
--   accept, Read and Writen give; Server/Select/Loop is about the loop over the
--   clients, Server/Select/Table about the invariant of the table.
-- - Server/Poll: unp/unpv13e/tcpcliserv/tcpservpoll01.c, a turn of the loop likewise. Server/Poll/Loop is
--   about the loop over the clients, Server/Poll/Account about where the descriptors are.
-- - Server/Pool: unp/unpv13e/server/serv08.c and pthread08.c. Main and the threads are interleaved steps;
--   what stands between lock and unlock of clifd_mutex is one step, and pthread_cond_wait is the phase
--   asleep. Server/Pool/Queue is about the ring, Served about the steps of main, Threads about those
--   of the threads and the runs.
-- - Nonblock: unp/unpv13e/nonblock/strclinonb.c, a turn of the loop by what select, read and write
--   give. Nonblock/Buffers is about the pointers, Nonblock/Steps and Copied about the bytes, Nonblock/Ends about
--   what select waits for and the end of the file.
-- - Icmp: packets from a raw socket, a list of the bytes received; a read behind their end is none.
--   Icmp/Trace is unp/unpv13e/traceroute/recv_v4.c and traceloop.c: Trace/Within is about the reads,
--   Trace/Packets about the errors that answer a probe, Trace/Unrelated about other packets, Trace/Answer
--   about the wait, Trace/Rounds about the loop. Icmp/Ping is
--   unp/unpv13e/ping/send_v4.c, proc_v4.c and lib/tv_sub.c. Icmp/Daemon is unp/unpv13e/icmpd:
--   readable_listen.c and readable_v4.c, Daemon/Conn readable_conn.c and the loop of icmpd.c;
--   Daemon/Table and Daemon/Turns are about the table of clients, Daemon/Clients about who gets an
--   error, Daemon/Stale about an entry that is taken again, Daemon/Deliver about the bytes that are read.
--   A failing Write ends readable_v4; the two of readable_conn are taken to succeed.
-- - Sock: unp/unpv13e/lib/sock_ntop.c, sock_cmp_addr.c and the other functions on the parts of a
--   socket address, one constructor for each family. Cksum: unp/unpv13e/libfree/in_cksum.c.
-- - Dial: unp/unpv13e/lib/tcp_connect.c, tcp_listen.c, udp_connect.c and udp_server.c, which try the
--   list of Gai's getaddrinfo one by one. Process is the open descriptors and Gai's World; what
--   socket, connect and bind do with an address is a parameter, the same for equal addresses. Dial/Client is udp_client.c, which
--   keeps a copy of the address, and host_serv.c.
-- - Web: unp/unpv13e/threads/web03.c. Main and the threads, one for a file, are interleaved steps:
--   main_step and thread_step give the next state, or none where they block; Step is either, Run is
--   any number of them. The lines under ndone_mutex in a thread are one step, and Pthread_cond_wait is
--   the phase asleep, which the signal of a thread ends. A thread has a number, and the file that it was
--   given. Web/Weigh and Web/Count are about the counters, Web/Own about the thread that each
--   file has, Web/Deadlock and Web/Progress about where the program stops.
-- - Retry: unp/unpv13e/lib/rtt.c and rtt/dg_send_recv.c. A Round is a transmission with the datagrams
--   that come before its alarm; siglongjmp to sendagain is the next round. The calls of alarm, with the
--   time of rtt_start, are not in the model: an alarm between Recvmsg and alarm(0) is one that does not
--   ring. Retry/Sent is about a call, Retry/Bounds about the timeout.
-- - Ring: recv_engine/rw_ring.h, the ring between one reader and one writer, whose indices wrap in 32
--   bits. Ring/Places is about the places that indices stand for, Ring/Queue compares the ring with a
--   bounded queue.
-- - Sort: algorithm/qsort.h. Sort/Arrays is about arrays of which a range is rearranged,
--   Sort/Partition about the partition, Sort/Quick about the recursion. Sort/Select is
--   randomized_select of algorithm/qselect.h, Sort/Select/Heap its heap_select, over an interface for
--   the priority queue with what it promises (Heap/Greatest is one). Sort/Select/Order is about the
--   places that separate smaller numbers from greater ones, Sort/Select/Rank about counting the smaller
--   numbers, Kth and Heap/Smallest about the number selected.
-- - Bst: data_structure/BST.h. A tree stands for the pointer to its root, since each node is linked from
--   one place. Bst/Sorted is about sorted lists, which Bst/Search (insert, find), Bst/Remove and
--   Bst/Walk (traverse, the copy, the destructor and the assignment) compare the tree with.
-- - Fifo: data_structure/queue.h, a ring of nodes at addresses of an explicit memory. Fifo/Links says
--   what nodes a queue has, Fifo/Ends is about push and pop, Fifo/Runs compares runs with a list.
--   Fifo/Whole has the copy, the destructor, the assignment, swap and traverse.
-- - Tests: the models at concrete inputs.
--
-- Fuel: readn_loop takes one unit for each call of read; readn gives one more than there are events,
-- which is enough, since every call but the last uses an event up.
-- send_again takes one unit for each transmission and gets four, RTT_MAXNREXMT + 1, which is enough.
-- decimal_before takes one unit for each digit and gets one more than the number, which has no more
-- digits than that.
-- qsort_range takes one unit for each level of the recursion and gets two for each number;
-- traverse_loop of Bst takes one for each node and gets one more than there are. select_loop takes one for
-- each round and gets the number of numbers. The loops of Fifo/Whole take one for each round; their fuel is
-- an argument, and as many as there are elements is enough.
--
-- Numbers: the elements of the C++ templates are natural numbers. Sizes and indices of C++ wrap in 32
-- bits where they are declared so, those of std::vector in 64. Otherwise int values that are not
-- negative are natural numbers; sin_port is cut to sixteen bits;
-- atoi is the true value, where C leaves an overflow undefined. The numbers of AF_xxx and the sizes
-- of socket addresses are those of Linux, a struct timeval has 16 bytes, two longs of 64 bits, and a word of a packet is read
-- on a little-endian machine.
--
-- Not modelled: the contents of _res beside RES_USE_INET6; the resolver, inet_pton, inet_ntop, the
-- look-ups by address and port, uname, the arithmetic of float and std::priority_queue, which are
-- parameters; the wrappers that end the process on an error; copies of other projects' code (most
-- of unp/unpv13e/libfree); median_of_median_select, whose insertion sort reads out of range; the
-- services of the repository, exercises, and drivers that only read a file and print; IPv6 in
-- traceroute, ping and icmpd; FD_SET of a descriptor from FD_SETSIZE on; debug output; the setting up of sockets, threads and signals.
pub mod Common
pub mod Gai
pub mod Io
pub mod Server
pub mod Sock
pub mod Dial
pub mod Cksum
pub mod Web
pub mod Retry
pub mod Nonblock
pub mod Icmp
pub mod Ring
pub mod Sort
pub mod Bst
pub mod Fifo
pub mod Tests
