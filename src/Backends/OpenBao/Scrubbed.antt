-- ===== src/Backends/OpenBao/Scrubbed.antt =====
-- What the OpenBao backend takes from the text of an error.
use netbox_openbao.Prelude.{String, if◌then◌else◌}
use netbox_openbao.Backends.OpenBao.{
  Vendor, invalid_request, Answer, answer, fails, is_conflict, Hvac,
}

-- An error without its text, but for whether it reports a conflict; and a library that raises only such.
abbrev pub scrubbed : (String → String) → Vendor → Vendor
scrubbed lower (invalid_request message) =
    invalid_request (if is_conflict lower message then "check-and-set" else "")
scrubbed lower e = e

abbrev pub scrubbed_answer : {A : Type 0} → (String → String) → Answer A → Answer A
scrubbed_answer lower (answer a) = answer a
scrubbed_answer lower (fails e) = fails (scrubbed lower e)

abbrev pub scrubbed_call :
    {V A : Type 0} → (String → String) → (V → Answer A × V) → V → Answer A × V
scrubbed_call lower request v = let (result, v') = request v in (scrubbed_answer lower result, v')

abbrev pub scrubbed_hvac : {V : Type 0} → (String → String) → Hvac V → Hvac V
scrubbed_hvac lower hvac = record {
  approle_login =
      λ client role_id secret_id. scrubbed_call lower (hvac.approle_login client role_id secret_id);
  kubernetes_login = λ client role jwt. scrubbed_call lower (hvac.kubernetes_login client role jwt);
  cert_login = λ client. scrubbed_call lower (hvac.cert_login client);
  read_secret_version = λ client path version mount.
      scrubbed_call lower (hvac.read_secret_version client path version mount);
  read_secret = λ client path mount. scrubbed_call lower (hvac.read_secret client path mount);
  create_or_update_v2 = λ client path secret cas mount.
      scrubbed_call lower (hvac.create_or_update_v2 client path secret cas mount);
  create_or_update_v1 = λ client path secret mount.
      scrubbed_call lower (hvac.create_or_update_v1 client path secret mount);
  delete_secret_versions = λ client path versions mount.
      scrubbed_call lower (hvac.delete_secret_versions client path versions mount);
  delete_metadata_and_all_versions = λ client path mount.
      scrubbed_call lower (hvac.delete_metadata_and_all_versions client path mount);
  delete_secret = λ client path mount. scrubbed_call lower (hvac.delete_secret client path mount);
  read_secret_metadata =
      λ client path mount. scrubbed_call lower (hvac.read_secret_metadata client path mount);
  read_health_status = λ client. scrubbed_call lower (hvac.read_health_status client);
  update_metadata = λ client path metadata mount.
      scrubbed_call lower (hvac.update_metadata client path metadata mount);
}
