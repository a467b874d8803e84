-- ===== src/Room/Permission.antt =====
-- server/room/groupRoom/groupPermission.{h,cpp}. The state is that of `GroupPermissionImpl` without
-- its mutexes: each method holds them for its whole body and calls nothing that takes them again.
use Prim.Native.String.{String}
use qchat_server.Base.{ℕ, Bool, leb, [], none, some, Result, ok, err, Errc, system_error}
use qchat_server.Base.Dict.{Dict, id_key, string_key, lookup, insert, erase, emplace}

-- `enum class PermissionType`.
pub data PermissionType : Type 0 where
  default operator administrator : PermissionType

-- The underlying value, by which `>=` compares.
unfoldable pub rank : PermissionType → ℕ
rank default = 0
rank operator = 1
rank administrator = 2

pub record GroupPermission : Type 0 where
  pub permissions : Dict String PermissionType
  pub users : Dict ℕ PermissionType

unfoldable pub no_permissions : GroupPermission
no_permissions = record { permissions = []; users = [] }

-- `emplace` keeps the type of a permission that is there.
unfoldable pub modify_permission : String → PermissionType → GroupPermission → GroupPermission
modify_permission name type p = record p { permissions = emplace name type p.permissions }

unfoldable pub remove_permission : String → GroupPermission → Result (Unit {0}) × GroupPermission
remove_permission name p = elim (lookup name p.permissions) [
  | none ↦ (err (system_error Errc.no_permission), p)
  | some _ ↦ (ok tt, record p { permissions = erase name p.permissions })
]

unfoldable pub get_permission_type : String → GroupPermission → Result PermissionType
get_permission_type name p = elim (lookup name p.permissions) [
  | none ↦ err (system_error Errc.no_permission)
  | some type ↦ ok type
]

unfoldable pub modify_user_permission : ℕ → PermissionType → GroupPermission → GroupPermission
modify_user_permission user type p = record p { users = insert user type p.users }

unfoldable pub remove_user : ℕ → GroupPermission → Result (Unit {0}) × GroupPermission
remove_user user p = elim (lookup user p.users) [
  | none ↦ (err (system_error Errc.user_not_existed), p)
  | some _ ↦ (ok tt, record p { users = erase user p.users })
]

unfoldable pub user_has_permission : ℕ → String → GroupPermission → Result Bool
user_has_permission user name p = elim (lookup user p.users) [
  | none ↦ err (system_error Errc.user_not_existed)
  | some held ↦ elim (lookup name p.permissions) [
    | none ↦ err (system_error Errc.no_permission)
    | some needed ↦ ok (leb (rank needed) (rank held))
  ]
]

unfoldable pub get_user_permission_type : ℕ → GroupPermission → Result PermissionType
get_user_permission_type user p = elim (lookup user p.users) [
  | none ↦ err (system_error Errc.user_not_existed)
  | some type ↦ ok type
]
