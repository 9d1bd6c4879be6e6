-- ===== src/Tests/Samples.antt =====
-- A server's memory before it is used.
use arcus_c_client.Prelude.{none, some, true, false, []}
use arcus_c_client.ReturnCode.{success}
use arcus_c_client.Server.{Server, ServerState, tcp}

abbrev pub blank : Server
blank = record {
  is_allocated = false;
  is_initialized = true;
  is_shutting_down = false;
  is_dead = false;
  number_of_hosts = 0;
  cursor_active = 0;
  port = 0;
  fd = none;
  io_bytes_sent = 0;
  server_failure_counter = 0;
  server_failure_counter_query_id = 0;
  weight = 1;
  version = 0;
  state = ServerState.new;
  major_version = 255;
  minor_version = 255;
  micro_version = 255;
  is_enterprise = false;
  send_failed = false;
  in_sasl_mech = false;
  type = tcp;
  read_buffer_length = 0;
  read_data_length = 0;
  write_buffer_offset = 0;
  next_retry = 0;
  immediate_reconnect = false;
  groupindex = some 7;
  switchover_sidx = none;
  switchover_peer = [];
  switchover_state = success;
  limit_maxbytes = 0;
  hostname = [];
  str_port = [];
}
