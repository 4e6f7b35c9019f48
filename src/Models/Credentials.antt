-- ===== src/Models/Credentials.antt =====
-- `full_clean`, `clean` and `save` of netbox_openbao/models/credentials.py.
use netbox_openbao.Prelude.{
  ℕ, suc, String, Bool, true, false, Option, none, some, [], ◌∷◌, ◌++◌, any, not, ltb, ◌==◌, ◌||◌,
  ◌&&◌, opt_eq, update_where, str_eq, contains_text, if◌then◌else◌,
}
use netbox_openbao.Errors.{
  invalid, unknown_type, engine_mismatch, window_reversed, direct_ssh_type, other_invalid,
  does_not_exist,
}
use netbox_openbao.Exec.{Outcome, ok, raise}
use netbox_openbao.Models.{
  Credential, Assignment, Db, find_credential, find_policy, current_settings,
}
use netbox_openbao.Models.Paths.{path_for_prefix}
use netbox_openbao.Secrets.Registry.{is_known_credential_type}

-- `_apply_defaults`; the numbers of rows are positive, and 0 is falsy.
abbrev has_engine : Credential → Bool
has_engine c = elim c.engine_id [ none ↦ false | some n ↦ not (n == 0) ]

unfoldable pub apply_defaults : Db → Credential → Outcome Credential
unfolding find_policy
apply_defaults db c =
    if not (c.policy_id == 0) && not (has_engine c)
    then elim (find_policy c.policy_id db) [
      | none ↦ raise does_not_exist
      | some policy ↦ ok (record c { engine_id = some policy.engine_id })
    ]
    else ok c

-- `SSH_CREDENTIAL_TYPES` and `DIRECT_SSH_FORBIDDEN_TARGETS` of models/assignments.py.
abbrev pub is_ssh_type : String → Bool
is_ssh_type = contains_text ("ssh-keypair" ∷ "ssh-password" ∷ [])

abbrev pub forbidden_target : String → String → Bool
forbidden_target app_label model =
    (str_eq app_label "dcim" && str_eq model "device")
    || (str_eq app_label "virtualization" && str_eq model "virtualmachine")

abbrev persisted_is_ssh : Option Credential → Bool
persisted_is_ssh none = false
persisted_is_ssh (some row) = is_ssh_type row.credential_type

abbrev direct_assignment : ℕ → Assignment → Bool
direct_assignment pk a = a.credential_id == pk && forbidden_target a.app_label a.model

-- `_reject_ssh_type_with_direct_assignments`; an object without a row is being added.
unfoldable pub becomes_direct_ssh : Db → Credential → Bool
unfolding find_credential
becomes_direct_ssh db c = elim c.pk [
  | none ↦ false
  | some pk ↦
      is_ssh_type c.credential_type
      && not (persisted_is_ssh (find_credential pk db))
      && any (direct_assignment pk) db.assignments
]

abbrev pub reversed_window : Option ℕ → Option ℕ → Bool
reversed_window (some from) (some until) = ltb until from
reversed_window _ _ = false

-- `self.policy_id and self.engine_id and self.policy.engine_id != self.engine_id`
engine_check : Db → Credential → Outcome (Unit {0})
unfolding find_policy
engine_check db c =
    if not (c.policy_id == 0) && has_engine c
    then elim (find_policy c.policy_id db) [
      | none ↦ raise does_not_exist
      | some policy ↦
          if opt_eq c.engine_id (some policy.engine_id)
          then ok tt
          else raise (invalid engine_mismatch)
    ]
    else ok tt

unfoldable pub clean : Db → Credential → Outcome (Unit {0})
unfolding is_known_credential_type engine_check becomes_direct_ssh
clean db c =
    if not (str_eq c.credential_type "")
      && not (is_known_credential_type db.stored_types c.credential_type)
    then raise (invalid (unknown_type c.credential_type))
    else elim (engine_check db c) [
      | raise e ↦ raise e
      | ok _ ↦
          if reversed_window c.valid_from c.valid_until
          then raise (invalid window_reversed)
          else if becomes_direct_ssh db c
          then raise (invalid direct_ssh_type)
          else ok tt
    ]

-- `full_clean`: the defaults, `clean`, and what Django checks of the fields, which is an argument.
-- The object comes back with its defaults.
unfoldable pub full_clean : (Db → Credential → Bool) → Db → Credential → Outcome Credential
unfolding apply_defaults clean
full_clean fields_valid db c = elim (apply_defaults db c) [
  | raise e ↦ raise e
  | ok c' ↦ elim (clean db c') [
    | raise e ↦ raise e
    | ok _ ↦ if fields_valid db c' then ok c' else raise (invalid other_invalid)
  ]
]

abbrev insert_row : Credential → Db → Db
insert_row c db = record db {
  credentials = db.credentials ++ (c ∷ []);
  next_credential = suc db.next_credential;
}

-- The path is stamped once, and never derived again.
unfoldable pub stamped : Db → Credential → Outcome Credential
unfolding path_for_prefix current_settings
stamped db c =
    if str_eq c.path ""
    then elim (path_for_prefix (current_settings db).path_prefix c.uuid) [
      | raise e ↦ raise e
      | ok path ↦ ok (record c { path = path })
    ]
    else ok c

insert_stamped : Db → Outcome Credential → Outcome (Credential × Db)
insert_stamped db (raise e) = raise e
insert_stamped db (ok c) =
    let row = record c { pk = some db.next_credential } in ok (row, insert_row row db)

-- Django updates the row of a saved object, and inserts it where there is none.
abbrev update_or_insert : Credential → Db → Db
update_or_insert c db = elim (any (λ row. opt_eq row.pk c.pk) db.credentials) [
  | true ↦ record db {
    credentials = update_where (λ row. opt_eq row.pk c.pk) (λ _. c) db.credentials;
  }
  | false ↦ record db { credentials = db.credentials ++ (c ∷ []) }
]

-- `save()` behind the defaults: the object as the row was written, and the database.
unfoldable pub save : Db → Credential → Outcome (Credential × Db)
unfolding stamped insert_stamped
save db c = elim c.pk [
  | none ↦ insert_stamped db (stamped db c)
  | some _ ↦ ok (c, update_or_insert c db)
]
