-- ===== src/Base/Errors.antt =====
-- utils/error/qls_error.h, and the other ways in which a call of the server does not return.

-- `enum class qls_errc`.
pub data Errc : Type 0 where
  null_pointer incomplete_package empty_length invalid_data data_too_small data_too_large : Errc
  hash_mismatched null_tls_context null_tls_callback_handle null_socket_pointer : Errc
  connection_test_failed socket_pointer_existed socket_pointer_not_existed : Errc
  password_already_set password_mismatched user_existed user_not_existed : Errc
  verification_existed verification_not_existed invalid_verification : Errc
  private_room_existed private_room_not_existed private_room_unable_to_use : Errc
  group_room_existed group_room_not_existed group_room_unable_to_use : Errc
  group_room_user_level_invalid no_permission permission_denied : Errc

-- How a call ends when it does not return: `std::system_error` with a code, `std::logic_error`,
-- `std::runtime_error`, `std::system_error` with `std::errc::resource_deadlock_would_occur`, and what
-- C++ leaves undefined; a call that waits for what never comes, or a loop that never ends.
pub data Failure : Type 0 where
  system_error : Errc → Failure
  logic_error : Failure
  runtime_error : Failure
  resource_deadlock : Failure
  never_ends : Failure
  undefined_behaviour : Failure

pub data Result {ℓ} (A : Type ℓ) : Type ℓ where
  ok : A → Result A
  err : Failure → Result A
