-- ===== src/Net/DataPackage/PackageType.antt =====
-- utils/network/dataPackage.hpp: `enum DataPackageType`.
use qchat_server.Base.{ℕ}

abbrev pub unknown : ℕ
unknown = 0

abbrev pub text : ℕ
text = 1

abbrev pub binary : ℕ
binary = 2

abbrev pub file_stream : ℕ
file_stream = 3

abbrev pub heart_beat : ℕ
heart_beat = 4
