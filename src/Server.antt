-- ===== src/Server.antt =====
-- One server of a client: `memcached_server_st`, its creation and its release, of libmemcached/server.cc
-- and libmemcached/server.hpp.
use arcus_c_client.Prelude.{
  ℕ, zero, suc, ◌+◌, ◌%◌, ◌^◌, Bool, true, false, Option, none, some, ltb, length,
}
use arcus_c_client.ReturnCode.{ReturnCode, success}
use arcus_c_client.Text.{Bytes, print_unsigned}

-- `memcached_connection_t`
pub data Connection : Type 0 where
  tcp : Connection
  udp : Connection
  unix_socket : Connection

-- `memcached_server_state_t`
pub data ServerState : Type 0 where
  new : ServerState
  addrinfo : ServerState
  in_progress : ServerState
  connected : ServerState
  in_timeout : ServerState

-- `memcached_server_st`, less its buffers' contents, addresses, links and error list. `none` is the
-- -1 of `fd`, `groupindex` and `switchover_sidx`.
pub record Server : Type 0 where
  pub is_allocated : Bool
  pub is_initialized : Bool
  pub is_shutting_down : Bool
  pub is_dead : Bool
  pub number_of_hosts : ℕ
  pub cursor_active : ℕ
  pub port : ℕ
  pub fd : Option ℕ
  pub io_bytes_sent : ℕ
  pub server_failure_counter : ℕ
  pub server_failure_counter_query_id : ℕ
  pub weight : ℕ
  pub version : ℕ
  pub state : ServerState
  pub major_version : ℕ
  pub minor_version : ℕ
  pub micro_version : ℕ
  pub is_enterprise : Bool
  pub send_failed : Bool
  pub in_sasl_mech : Bool
  pub type : Connection
  pub read_buffer_length : ℕ
  pub read_data_length : ℕ
  pub write_buffer_offset : ℕ
  pub next_retry : ℕ
  pub immediate_reconnect : Bool
  pub groupindex : Option ℕ
  pub switchover_sidx : Option ℕ
  pub switchover_peer : Bytes
  pub switchover_state : ReturnCode
  pub limit_maxbytes : ℕ
  pub hostname : Bytes
  pub str_port : Bytes

abbrev pub uint8_max : ℕ
uint8_max = 255

abbrev pub ni_maxhost : ℕ
ni_maxhost = 1025

abbrev pub udp_datagram_header_length : ℕ
udp_datagram_header_length = 8

-- `memcached_is_valid_servername`, of a string that is not NULL
unfoldable pub is_valid_servername : Bytes → Bool
is_valid_servername hostname = ltb (length hostname) ni_maxhost

abbrev pub default_weight : ℕ → ℕ
default_weight zero = 1
default_weight (suc w) = suc w

-- `_server_init`. `version` is the client's version counter after its increment. The switchover
-- index and peer are left as they are.
unfoldable pub server_init : Server → ℕ → Bytes → ℕ → ℕ → Connection → Server
unfolding print_unsigned
server_init self version hostname port weight type = record {
  is_allocated = self.is_allocated;
  is_initialized = self.is_initialized;
  is_shutting_down = false;
  is_dead = false;
  number_of_hosts = 0;
  cursor_active = 0;
  port = port;
  fd = none;
  io_bytes_sent = 0;
  server_failure_counter = 0;
  server_failure_counter_query_id = 0;
  weight = default_weight weight;
  version = version;
  state = ServerState.new;
  major_version = uint8_max;
  minor_version = uint8_max;
  micro_version = uint8_max;
  is_enterprise = false;
  send_failed = false;
  in_sasl_mech = false;
  type = type;
  read_buffer_length = 0;
  read_data_length = 0;
  write_buffer_offset = 0;
  next_retry = 0;
  immediate_reconnect = false;
  groupindex = none;
  switchover_sidx = self.switchover_sidx;
  switchover_peer = self.switchover_peer;
  switchover_state = success;
  limit_maxbytes = 0;
  hostname = hostname;
  str_port = print_unsigned port;
}

-- `_server_create` on memory that the caller gives: it never fails.
unfoldable pub server_create : Server → Server
server_create self = record self { is_allocated = false; is_initialized = true }

abbrev pub after_udp : Connection → Server → Server
after_udp udp s = record s { write_buffer_offset = udp_datagram_header_length }
after_udp tcp s = s
after_udp unix_socket s = s

-- `__server_create_with` on given memory: the new value of the client's version counter, and the server.
unfoldable pub server_create_with : Server → ℕ → Bytes → ℕ → ℕ → Connection → ℕ × Server
unfolding server_create server_init
server_create_with self version hostname port weight type =
    let version' = (version + 1) % 2 ^ 32 in
    (version', after_udp type (server_init (server_create self) version' hostname port weight type))

abbrev pub header_length : Connection → ℕ
header_length tcp = 0
header_length udp = udp_datagram_header_length
header_length unix_socket = 0

-- `memcached_quit_server(self, false)`, less the traffic with the server: what it leaves in the fields.
unfoldable pub quit_server : Server → Server
quit_server self = record self {
  fd = none;
  server_failure_counter = elim self.fd [ none ↦ self.server_failure_counter | some _ ↦ 0 ];
  state = ServerState.new;
  cursor_active = 0;
  io_bytes_sent = 0;
  write_buffer_offset = header_length self.type;
  read_buffer_length = 0;
  is_shutting_down = false;
  major_version = uint8_max;
  minor_version = uint8_max;
  micro_version = uint8_max;
  is_enterprise = false;
}

-- `__server_free` of a server that is not on the heap by itself.
unfoldable pub server_free : Server → Server
unfolding quit_server
server_free self = record (quit_server self) { is_initialized = false }
