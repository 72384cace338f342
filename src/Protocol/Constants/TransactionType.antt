-- ===== src/Protocol/Constants/TransactionType.antt =====
-- The transaction types that the code dispatches on or sends.
use slopline.Base.{ℕ}

abbrev pub login : ℕ
login = 107

abbrev pub agreed : ℕ
agreed = 121

abbrev pub keep_connection_alive : ℕ
keep_connection_alive = 500
