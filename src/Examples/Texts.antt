-- ===== src/Examples/Texts.antt =====
-- The OpenBao backend on a server that refuses every request, with a text.
use netbox_openbao.Prelude.{ℕ, suc, none, some, ◌≡◌, refl}
use netbox_openbao.Errors.{coded, conflict}
use netbox_openbao.Exec.{ok}
use netbox_openbao.Json.{pos}
use netbox_openbao.Backends.OpenBao.{
  Vendor, invalid_request, Answer, fails, is_conflict, translate, occurs, Hvac, Host,
}
use netbox_openbao.Models.AuthMaterials.{remove_prefix}

-- The number of requests, which are all refused.
abbrev refusal : Vendor
refusal = invalid_request "check-and-set parameter did not match the current version"

abbrev refused_request : {A : Type 0} → ℕ → Answer A × ℕ
refused_request n = (fails refusal, suc n)

abbrev hvac : Hvac ℕ
hvac = record {
  approle_login = λ client role_id secret_id. refused_request;
  kubernetes_login = λ client role jwt. refused_request;
  cert_login = λ client. refused_request;
  read_secret_version = λ client path version mount. refused_request;
  read_secret = λ client path mount. refused_request;
  create_or_update_v2 = λ client path secret cas mount. refused_request;
  create_or_update_v1 = λ client path secret mount. refused_request;
  delete_secret_versions = λ client path versions mount. refused_request;
  delete_metadata_and_all_versions = λ client path mount. refused_request;
  delete_secret = λ client path mount. refused_request;
  read_secret_metadata = λ client path mount. refused_request;
  read_health_status = λ client. refused_request;
  update_metadata = λ client path metadata mount. refused_request;
}

abbrev host : Host
host = record {
  cipher = record { seal = λ secret_key plain. plain; open_token = λ secret_key token. some token };
  secret_key = "key";
  lower = λ s. s;
  file = λ path. none;
  to_int = λ v. ok (pos 0);
  shown = λ v. "";
  token_cache_ttl = 600;
}

conflict_test : translate host.lower refusal ≡ coded conflict (some 409)
unfolding translate is_conflict occurs remove_prefix
conflict_test = refl
