-- ===== src/Protocol/Constants/FieldId.antt =====
-- The field ids that the code reads or writes.
use slopline.Base.{ℕ}

abbrev pub error_text : ℕ
error_text = 100

abbrev pub user_login : ℕ
user_login = 105

abbrev pub user_password : ℕ
user_password = 106

abbrev pub vers : ℕ
vers = 160

abbrev pub community_banner_id : ℕ
community_banner_id = 161

abbrev pub server_name : ℕ
server_name = 162

abbrev pub session_key : ℕ
session_key = 3587

abbrev pub mac_alg : ℕ
mac_alg = 3588

abbrev pub server_cipher_alg : ℕ
server_cipher_alg = 3777

abbrev pub client_cipher_alg : ℕ
client_cipher_alg = 3778
