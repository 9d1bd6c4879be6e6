-- ===== src/Lib.antt =====
-- A model of the Arcus C client: how a client keeps its list of cache servers and its replica groups,
-- how it chooses the server of a key, and how it reads what the server answers.
--
-- The cluster manager gives a client a list of addresses (libmemcached/arcus.cc, not modelled). The
-- client compares the list with its servers, drops those that are gone, adds the new ones
-- (libmemcached/memcached.cc, libmemcached/hosts.cc), and makes its hash ring again. With replication the
-- list is first split into groups of a master and its slaves, and each group is brought up to date
-- (libmemcached/rgroup.cc, libmemcached/memcached.cc). A key is tested
-- (libmemcached/key.cc) and hashed, with its namespace or by its shard tag, and the hash is
-- looked up on the ring (libmemcached/hash.cc). The answer is read from the connection
-- (libmemcached/io.cc) and told by its first line (libmemcached/response.cc); it may name the slave that has
-- become the master of the group, which then changes places with the old one (libmemcached/rgroup.cc).
--
-- ReturnCode is the enumeration of libmemcached/return.h. Text has C strings as lists of their bytes
-- before the NUL, with strcmp and %u. Prelude passes the libraries' names on, with lists that are measured
-- by native numbers.
--
-- Server is memcached_server_st with its creation and release (libmemcached/server.cc,
-- libmemcached/quit.cc): memory that is not set keeps the values that it is given. Traffic with the
-- server is not modelled, only what it leaves in the fields.
--
-- Ring is the binary search of dispatch_host. A read outside of the ring and the end of the fuel are
-- `none`; the fuel is one more than the number of points, and Ring/Search shows that it is enough.
--
-- Ketama is update_continuum and its comparison of points. The MD5 digest, qsort, the clock, the success
-- of allocations and the floating-point share of a weighted host are parameters. The theorems ask of qsort
-- that, given a consistent comparison, it permutes and orders. Ketama/Hostport and Ketama/Order show that
-- the source's comparison is consistent, Ketama/Hosts follows the loop over the hosts, Ketama/Even is about how many
-- points each host has, Ketama/Live about the
-- whole function, Ketama/Failures what it keeps.
--
-- Dispatch is the rest of libmemcached/hash.cc: get_shard_key, generate_hash, _generate_hash_wrapper and
-- dispatch_host. A pointer into a key is the rest of the key from there. The hash function of the client,
-- random() and the table of virtual buckets are parameters. The rebuilding of the ring for ejected hosts
-- between the hash and the dispatch is not modelled. Dispatch/Shard is about the shard key, Dispatch/Servers
-- about the server of a key on a ring that Ketama makes.
--
-- Cluster is the update of the server list: do_memcached_update_serverlist, memcached_server_prune,
-- memcached_server_push_with_serverinfo, run_distribution and sort_hosts. The array of servers is a list
-- as long as number_of_hosts. The move of a server in prune adjusts its read pointer, which is part of
-- its connection and not modelled. Cluster/Membership follows the loops, Cluster/Update the whole.
--
-- Member is the update of a pool member's servers from its master's:
-- do_memcached_update_serverlist_with_master and memcached_server_push. Member/Follow is about the loop
-- over the member's servers, Member/Update about the whole.
--
-- GroupInfo is memcached_rgroup_info_create: reads and writes outside of the replicas and reads through
-- NULL are `none`; the array of groups, with a slot for each entry, is a list without that bound. GroupInfo/Entries is about one group, GroupInfo/Create and GroupInfo/Loops about the
-- loops over the list, GroupInfo/Contract about the whole.
--
-- Rgroup is the pool of servers, the operations on the replicas of a group and the two functions that
-- update a group, which differ only in where the addresses come from. A group's replicas are an array of
-- three; the loops have four rounds of fuel, one more than the array. Rgroup/Slots is about the array,
-- Rgroup/Ops about one operation each, Rgroup/Marks, Rgroup/Slaves and Rgroup/Halves about the parts of
-- an update, Rgroup/Refinement about the whole. Rgroup/Switchover is memcached_rgroup_switchover, of a server
-- that stands in a slot of its group; Rgroup/HostPort is about the text of a peer, Rgroup/Peer about the search for it, Rgroup/Named about the
-- line of the server and the switchover together.
--
-- GroupList is the replica groups of a client: the array of groups and the pool of servers
-- (libmemcached/rgroup.cc), their ring (libmemcached/hosts.cc) and do_memcached_update_rgrouplist
-- (libmemcached/memcached.cc). The slots in use are a list; what a free slot holds, the sort of the C
-- library and the memory for new servers are parameters, and an allocation may fail. GroupList/Removal,
-- GroupList/Ring and GroupList/Listing are the rest of the operations, and GroupList/Follow is
-- do_memcached_update_rgrouplist_with_master. A group is destroyed in four rounds of fuel, one
-- more than its replicas; the count of slots grows by ten in at most one round more than the groups asked for.
-- Rgroup/Every is about results that may be missing, Rgroup/Kept about what the operations on one group leave as it was, the sum of the free servers and of those of the group
-- among it. GroupList/Members says what a well-formed client is; GroupList/Renumber, GroupList/Destroy, GroupList/Prune,
-- GroupList/Add, GroupList/Expand, GroupList/Asked, GroupList/Push and GroupList/Sorting are about one operation each; GroupList/Names,
-- GroupList/One, GroupList/Becomes, GroupList/Match, GroupList/Ready, GroupList/Base and GroupList/Apply follow the update, GroupList/Update is about the whole;
-- GroupList/Mirror and GroupList/Master are about the update of a pool's member.
--
-- Hex is the byte arrays of collection elements in hexadecimal (libmemcached/collection.cc). Memory that is
-- allocated and not written keeps what it held; an access outside of an array is `none`. Hex/Bytewise is
-- about one byte, Hex/RoundTrip about reading what is printed, Hex/Order about the comparison.
--
-- Collection is the words of the collection commands, and Collection/Words is about them. Piped is
-- do_aggregate_pipe_responses, and Piped/Codes is about the code that it returns
-- (libmemcached/collection.cc).
--
-- Io is the reading side of a connection (libmemcached/io.cc): io_wait for reading, _io_fill,
-- memcached_io_read, memcached_safe_read and memcached_io_readline. What recv and poll answer is a script; a call
-- that outlives it is `none`. The read buffer is a list with the offset read_ptr. poll_timeout is a
-- natural number, the list of errors is left out, and so is what memcached_quit_server does to fields that reading
-- does not use. The fuel of a loop is the bytes asked for, or one more than the answers left, since each retry
-- uses one up; a buffer of no bytes is not modelled for memcached_io_readline. Io/Stream is about the
-- bytes that are to come, Io/Reads, Io/SafeRead and Io/Loss about reading a number of bytes, Io/Ends about when
-- reading returns. Io/Line is memcached_io_readline, and Io/Copy, Io/Lines, Io/Rounds and Io/Readline are about it.
--
-- Sending is the writing side (libmemcached/io.cc): io_flush, _io_write, memcached_io_write, memcached_io_writev,
-- repack_input_buffer and io_wait for writing. What send, recv and poll answer is a script; a call that
-- outlives it is `none`, and so is one in which memcached_purge (libmemcached/purge.cc) would read responses,
-- of which its test is modelled. The connection is a stream without callbacks; a result is whether it is other
-- than -1. The fuel of _io_write's loop is the bytes to be written, each round taking one at least.
-- Sending/Flush is about the loop over send, Sending/Buffer about the write buffer, Sending/Written about the whole.
--
-- Response is the first line of a response of the text protocol: the switch of textual_read_one_response
-- and textual_switchover_peer_check (libmemcached/response.cc). The buffer is the line with its newline and
-- what it held before; what follows a line is an action, which carries what is handed on of the buffer. Of what
-- takes it from there, the peer of a switchover, the list of mechanisms and the value are modelled.
-- Response/Table is the words in one table, Response/Local is about the bytes behind a line, Response/Lines
-- about the whole line, Response/Peer about
-- the peer.
--
-- Value is textual_value_fetch (libmemcached/response.cc): the fields of a VALUE line, then the value, read
-- from Io's connection into a string of DynString. strtoull, strtoul, isspace and iscntrl are those of the C
-- locale. What a failed call leaves in the result is not modelled, nor the error noted for a key that is too long.
-- Value/Numbers and Value/Fields are about the line, Value/Fetch about the whole, Value/Overflow about
-- lengths at the end of size_t.
--
-- Keys is the tests of keys and the namespace of a client (libmemcached/key.cc,
-- libmemcached/namespace.cc). isgraph of the C library is a parameter. Outcome is memcached_success,
-- memcached_failed and memcached_fatal (libmemcached/return.h).
--
-- DynString is the growing strings of libmemcached/string.cc: their memory, the offset of their end and
-- their size. realloc is a parameter that gives what the memory is extended by. DynString/Growth is about
-- the check for room, DynString/Append about appending.
--
-- Tests runs the definitions on concrete data and applies the theorems to it.
--
-- Not modelled: the requests, the rest of the responses, the rest of the collections, the purge of
-- responses in the middle of writing, pools of clients, the hash functions, ZooKeeper, authentication, the generated configuration parser, and the
-- tools and tests. Numbers are natural numbers; where the source's types wrap and the program could reach
-- it, `% 2 ^ 32` or `% 2 ^ 64` is written out.
pub mod Prelude
pub mod ReturnCode
pub mod Outcome
pub mod Text
pub mod Server
pub mod Rgroup
pub mod Ring
pub mod Ketama
pub mod Dispatch
pub mod Cluster
pub mod Io
pub mod Response
pub mod Value
pub mod GroupList
pub mod Sending
pub mod Member
pub mod GroupInfo
pub mod Hex
pub mod Collection
pub mod Piped
pub mod Keys
pub mod DynString
pub mod Tests
