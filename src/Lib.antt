-- ===== src/Lib.antt =====
-- qaoed is a daemon that serves files as disks over Ethernet (the ATA over Ethernet protocol). A
-- listener thread reads packets from each interface (arch/linux_net.c, network.c), puts a request in
-- the queue of every device that it is for, and the worker thread of a device (devices.c) answers it
-- by a frame, after a look at its access lists (acl.c). At the start a file is read into tokens and a
-- tree (rcfg/readconf.c), the sections of the tree become a configuration that is checked
-- (parseconf.c), and the threads are started. Clients of a local socket ask for and change the
-- configuration (api.c). The library models the path of a packet from the wire to its answer, the
-- way from a file to the configuration that the daemon runs with, its replacement on a signal, the
-- sessions on the socket and the control program (qdctl.c) at their other end.
--
--   Base       lists, maps, C's integers, results of C calls: done, fault (undefined behaviour:
--              a read outside a buffer or through a NULL or freed pointer), blocked (a wait that
--              nothing ends)
--   Wire       include/aoe.h, include/eth.h, include/byteorder.h: headers, casts, byte order
--   Acl        acl.c: aclmatch, referenceacl, referenceaclint, aclrefup, aclrefdown
--   Conf       include/qaoed.h: struct ifst, struct aoedev, struct qconfig
--   Queue      network.c insertwork, and the removal in devices.c qaoed_worker
--   Memory     network.c qaoed_pktdestroy, qaoed_workdestroy: the two reference counters
--   Network    network.c processpacket, arch/linux_net.c qaoed_listener
--   Device     devices.c qaoed_createpkt, network.c qaoed_xmit
--   Ata        devices.c qaoed_LBA, qaoed_file_read, qaoed_file_write, qaoed_transfer,
--              qaoed_identify, qaoed_processATA
--   Cfg        devices.c qaoed_processCFG
--   Worker     devices.c qaoed_processwork, qaoed_worker, qaoed_dobcast, qaoed_bcastdevice
--   Rcfg       rcfg/readconf.c recursiveparse, processtokens
--   Rcfg.Tokens the tokenizer: comments, quotations and the ends of tokens; Rcfg.Tokens.Include
--              the files that are included (tokenize), Rcfg.Readconfig a whole file (readconfig)
--   Rcfg.Check the checks of the tokens: countbraces, checktokenlist, checkdatatype, checkargs,
--              validatetokens; rcfg/rcfgkw.h
--   Parse      parseconf.c: access lists (Acl: parseACL, findACL), devices (Dev: parseDEV, findDEV,
--              findDFLT, parsedevacl), log targets (LogTargets: parseLOG, findLOG, createLOG), interfaces
--              (Interfaces: parseINT, findINT), global statements (Global: readglobal), the end
--              of qaoed_loadconfig (Finish); logging.c loglvresolv
--   Log        logging.c syslgresolv, logstart, logstart_file; parseconf.c openlogs
--   Config     parseconf.c qaoed_defaultconfig, qaoed_openinterfaces, qaoed_validateconfig
--   Start      devices.c qaoed_startworker, qaoed_startdevice, qaoed_devices; network.c
--              qaoed_startlistener, qaoed_network, qaoed_intrefup, qaoed_intrefdown
--   Api        api.c: the changes (Api, Add), the queries (Query), the two commands for
--              interfaces that no client reaches (Interface), the locks of the lists (Lock),
--              processAPIrequest and recvAPIrequest (Dispatch), qaoed_api (Socket);
--              parseconf.c referenceint, qaoed_devdefaults
--   Load       parseconf.c qaoed_loadconfig: the whole way from a file to a configuration, or none
--   Main       main.c, and what destroyqcfg of parseconf.c closes: start, stop, SIGHUP
--   Ctl        qdctl.c: the control program (Print: what it reads and prints; Commands: its words),
--              with the daemon at the other end of the socket (Serve: processAPIrequest of api.c)
--   Tests      the theorems at work on a concrete machine
--
-- State is passed explicitly. A pointer to a work entry, a packet or a queue entry is an address in a
-- map from addresses to what is there; a pointer to an interface or an access list is its position in
-- the list of the configuration, which only grows. The byte order, `htons` and `ntohs`, the file
-- behind a device, fresh memory and the results of `malloc`, `stat`, `sscanf`, `atoi`, of the calls
-- for sockets and threads and of the system's MTU are parameters, with the laws that the C library
-- and the system document. Two-byte fields hold what the host reads, so the byte order matters where
-- the code forgets a conversion. Recursions go down a list or a tree, and the endless loop of the
-- worker is a number of its rounds. Only the parser of tokens takes fuel, one more than there are
-- tokens: each round and each block uses at least one, and Rcfg.Returns shows that it is enough. In the
-- tokenizer it is the length of a line, which Rcfg.Tokens.Ends shows to be enough, and a bound on the
-- depth of the includes, which the code does not limit.
--
-- Every counter and queue is changed under a lock of its own, and the lists of devices are held for
-- reading while a packet is handed out; so each of these is one step, and their locks are not in the
-- model. The locks of the lists are, where a client's command takes them. The reference counters of
-- the interfaces are followed at the start of the daemon and not through the commands. The texts
-- that go to a log are left out, and so is what happens when `write` on a socket fails, since it is
-- only logged.
--
-- Not modelled are the printing and the release of a tree (printcfg, destroycfg), the release of the
-- memory of a configuration (destroyqcfg), the writing of log lines (logging.c) and the system layers
-- under arch but for what opens an interface. Nor is the rest of a load once an access list or a log
-- target has no name, or an interface no name or next that was set: it ends as incomplete.
pub mod Base
pub mod Acl
pub mod Wire
pub mod Queue
pub mod Conf
pub mod Memory
pub mod Network
pub mod Device
pub mod Ata
pub mod Cfg
pub mod Worker
pub mod Tests
pub mod Api
pub mod Rcfg
pub mod Config
pub mod Start
pub mod Parse
pub mod Load
pub mod Log
pub mod Main
pub mod Ctl
