-- ===== src/Models/Assignments.antt =====
-- `clean` of netbox_openbao/models/assignments.py.
pub mod Direct
use netbox_openbao.Prelude.{
  ℕ, ◌<>◌, String, Bool, true, false, Option, none, some, List, [], ◌∷◌, not, ◌&&◌, ◌||◌, ◌==◌,
  opt_eq, first, str_eq, contains_text, if◌then◌else◌,
}
use netbox_openbao.Errors.{Exn, invalid, not_assignable, direct_ssh_binding, does_not_exist}
use netbox_openbao.Exec.{Outcome, ok, raise}
use netbox_openbao.Models.{Assignment, Credential, Db, find_credential}
use netbox_openbao.Models.Credentials.{is_ssh_type, forbidden_target}

-- What an assignment points at: the two labels of its content type, and the number of the object.
pub record Target : Type 0 where
  pub app_label : String
  pub model : String
  pub object_id : ℕ

-- An assignment in memory. One that is being added has no row; either side may still be missing.
pub record Draft : Type 0 where
  pub pk : Option ℕ
  pub credential_id : Option ℕ
  pub target : Option Target

abbrev pub label_of : Target → String
label_of t = t.app_label <> ("." <> t.model)

-- `persisted == (credential_id, assigned_object_type_id, assigned_object_id)`
abbrev pub same_binding : ℕ → Target → Assignment → Bool
same_binding credential_id t row =
    row.credential_id == credential_id
    && str_eq row.app_label t.app_label
    && str_eq row.model t.model
    && row.object_id == t.object_id

abbrev unchanged : ℕ → Target → Option Assignment → Bool
unchanged credential_id t none = false
unchanged credential_id t (some row) = same_binding credential_id t row

abbrev pub persisted : Option ℕ → Db → Option Assignment
persisted none db = none
persisted (some pk) db = first (λ row. row.pk == pk) db.assignments

-- `_is_new_direct_ssh_binding`, once the credential is read.
new_binding : Db → Option ℕ → ℕ → Target → Credential → Bool
new_binding db pk credential_id t c =
    is_ssh_type c.credential_type
    && forbidden_target t.app_label t.model
    && not (unchanged credential_id t (persisted pk db))

unfoldable pub is_new_direct_ssh_binding : Db → Draft → Outcome Bool
unfolding new_binding find_credential
is_new_direct_ssh_binding db d = elim d.target [
  | none ↦ ok false
  | some t ↦ elim d.credential_id [
    | none ↦ ok false
    | some credential_id ↦ elim (find_credential credential_id db) [
      | none ↦ raise does_not_exist
      | some c ↦ ok (new_binding db d.pk credential_id t c)
    ]
  ]
]

refuse_direct : Outcome Bool → Outcome (Unit {0})
refuse_direct (raise e) = raise e
refuse_direct (ok true) = raise (invalid direct_ssh_binding)
refuse_direct (ok false) = ok tt

abbrev pub permits : List String → Option Target → Bool
permits permitted none = true
permits permitted (some t) = contains_text permitted (label_of t)

abbrev label_text : Option Target → String
label_text none = ""
label_text (some t) = label_of t

-- `clean`; the list is that of `assignable_model_labels`.
unfoldable pub clean_assignment : List String → Db → Draft → Outcome (Unit {0})
unfolding is_new_direct_ssh_binding refuse_direct
clean_assignment permitted db d =
    if permits permitted d.target
    then refuse_direct (is_new_direct_ssh_binding db d)
    else raise (invalid (not_assignable (label_text d.target)))
