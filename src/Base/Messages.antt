-- ===== src/Base/Messages.antt =====
-- utils/error/qls_error.cpp: the texts of the codes.
use Prim.Native.String.{String}
use qchat_server.Base.Errors.{Errc}

-- `qls_error_category::message` of a code. `OK` and numbers that are no code have "unknown error".
unfoldable pub message : Errc → String
message Errc.null_pointer = "pointer is null"
message Errc.incomplete_package = "packge is incomplete"
message Errc.empty_length = "data is empty"
message Errc.invalid_data = "data is invalid"
message Errc.data_too_small = "data is too small"
message Errc.data_too_large = "data is too large"
message Errc.hash_mismatched = "hash mismatched"
message Errc.null_tls_context = "tls context is null"
message Errc.null_tls_callback_handle = "tls callback_handle is null"
message Errc.connection_test_failed = "connection test failed"
message Errc.null_socket_pointer = "pointer of socket is null"
message Errc.socket_pointer_existed = "socket pointer already exists"
message Errc.socket_pointer_not_existed = "socket pointer doesn't exist"
message Errc.password_already_set = "user has set password"
message Errc.password_mismatched = "password mismatched"
message Errc.user_existed = "user already exists"
message Errc.user_not_existed = "user doesn't exist"
message Errc.verification_existed = "verification already exists"
message Errc.verification_not_existed = "verification doesn't exist"
message Errc.invalid_verification = "invalid verification"
message Errc.private_room_existed = "private room already exists"
message Errc.private_room_not_existed = "private room doesn't exist"
message Errc.private_room_unable_to_use = "room can't be used"
message Errc.group_room_existed = "group room already exists"
message Errc.group_room_not_existed = "group room doesn't exist"
message Errc.group_room_unable_to_use = "room can't be used"
message Errc.group_room_user_level_invalid = "level of user(s) in group room is invalid"
message Errc.no_permission = "no permission"
message Errc.permission_denied = "permission denied"
