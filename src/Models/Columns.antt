-- ===== src/Models/Columns.antt =====
-- `save(update_fields=[...])`: the columns that the material path writes, one by one.
use netbox_openbao.Prelude.{List, [], ◌∷◌, opt_eq, update_where}
use netbox_openbao.Models.{Credential, Db}

pub data Column : Type 0 where
  kv_version live_kv_version staged_kv_version last_verified last_rotated status : Column
  live_key_fingerprint live_key_version staged_key_fingerprint staged_key_version : Column

-- The value of one column goes from the object in memory to the row.
unfoldable pub write_column : Credential → Credential → Column → Credential
write_column c row kv_version = record row { kv_version = c.kv_version }
write_column c row live_kv_version = record row { live_kv_version = c.live_kv_version }
write_column c row staged_kv_version = record row { staged_kv_version = c.staged_kv_version }
write_column c row last_verified = record row { last_verified = c.last_verified }
write_column c row last_rotated = record row { last_rotated = c.last_rotated }
write_column c row status = record row { status = c.status }
write_column c row live_key_fingerprint = record row {
  live_key_fingerprint = c.live_key_fingerprint;
}
write_column c row live_key_version = record row { live_key_version = c.live_key_version }
write_column c row staged_key_fingerprint = record row {
  staged_key_fingerprint = c.staged_key_fingerprint;
}
write_column c row staged_key_version = record row { staged_key_version = c.staged_key_version }

unfoldable pub write_columns : Credential → List Column → Credential → Credential
unfolding write_column
write_columns c [] row = row
write_columns c (column ∷ rest) row = write_columns c rest (write_column c row column)

-- The statement: every other column of the row, and every other row, stays.
unfoldable pub save_columns : Credential → List Column → Db → Db
unfolding write_columns
save_columns c columns db = record db {
  credentials = update_where (λ row. opt_eq row.pk c.pk) (write_columns c columns) db.credentials;
}
