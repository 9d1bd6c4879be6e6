-- ===== src/ReturnCode.antt =====
-- `memcached_return_t` and its tests, of libmemcached/return.h.

-- The enumeration, with the deprecated members; `maximum_return` closes it.
pub data ReturnCode : Type 0 where
  success : ReturnCode
  failure : ReturnCode
  host_lookup_failure : ReturnCode
  connection_failure : ReturnCode
  connection_bind_failure : ReturnCode
  write_failure : ReturnCode
  read_failure : ReturnCode
  unknown_read_failure : ReturnCode
  protocol_error : ReturnCode
  client_error : ReturnCode
  server_error : ReturnCode
  connection_socket_create_failure : ReturnCode
  data_exists : ReturnCode
  data_does_not_exist : ReturnCode
  notstored : ReturnCode
  stored : ReturnCode
  notfound : ReturnCode
  memory_allocation_failure : ReturnCode
  partial_read : ReturnCode
  some_errors : ReturnCode
  no_servers : ReturnCode
  end : ReturnCode
  deleted : ReturnCode
  value : ReturnCode
  stat : ReturnCode
  item : ReturnCode
  errno : ReturnCode
  fail_unix_socket : ReturnCode
  not_supported : ReturnCode
  no_key_provided : ReturnCode
  fetch_notfinished : ReturnCode
  timeout : ReturnCode
  buffered : ReturnCode
  bad_key_provided : ReturnCode
  invalid_host_protocol : ReturnCode
  server_marked_dead : ReturnCode
  unknown_stat_key : ReturnCode
  e2big : ReturnCode
  invalid_arguments : ReturnCode
  key_too_big : ReturnCode
  auth_problem : ReturnCode
  auth_failure : ReturnCode
  auth_continue : ReturnCode
  parse_error : ReturnCode
  parse_user_error : ReturnCode
  deprecated : ReturnCode
  in_progress : ReturnCode
  server_temporarily_disabled : ReturnCode
  attr : ReturnCode
  attr_error_not_found : ReturnCode
  attr_error_bad_value : ReturnCode
  count : ReturnCode
  attr_mismatch : ReturnCode
  bkey_mismatch : ReturnCode
  eflag_mismatch : ReturnCode
  unreadable : ReturnCode
  trimmed : ReturnCode
  duplicated : ReturnCode
  response : ReturnCode
  updated : ReturnCode
  created : ReturnCode
  nothing_to_update : ReturnCode
  exists : ReturnCode
  all_exist : ReturnCode
  some_exist : ReturnCode
  all_not_exist : ReturnCode
  all_success : ReturnCode
  some_success : ReturnCode
  all_failure : ReturnCode
  created_stored : ReturnCode
  element_exists : ReturnCode
  notfound_element : ReturnCode
  out_of_range : ReturnCode
  overflowed : ReturnCode
  type_mismatch : ReturnCode
  exist : ReturnCode
  not_exist : ReturnCode
  deleted_dropped : ReturnCode
  pipe_error_command_overflow : ReturnCode
  pipe_error_memory_overflow : ReturnCode
  pipe_error_bad_error : ReturnCode
  replaced : ReturnCode
  position : ReturnCode
  invalid_command : ReturnCode
  undefined_response : ReturnCode
  switchover : ReturnCode
  repl_slave : ReturnCode
  maximum_return : ReturnCode
