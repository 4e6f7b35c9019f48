-- ===== src/Administration/Contract.antt =====
-- netbox_openbao/administration/broker.py: the client that carries the administration of a server
-- through the broker, by one pinned contract.
pub mod Ambiguous
use netbox_openbao.Prelude.{
  ℕ, ◌<>◌, String, Bool, true, false, Option, none, some, List, [], ◌∷◌, not, ◌&&◌, ◌||◌, ltb, leb,
  ◌==◌, all, any, map, str_eq, contains_text, if◌then◌else◌,
}
use netbox_openbao.Errors.{
  Exn, openbao, OpenBaoClass, OpenBaoError, coded, worded, configuration, auth, not_found, conflict,
  unavailable, mutation_unknown,
}
use netbox_openbao.Exec.{Exec, Outcome, ok, raise, throw, lift, continue}
use netbox_openbao.Exec.Outcomes.{◌>>=◌, ◌>>◌, guard, each}
use netbox_openbao.Json.{Value, text, array, object, Items, Fields, end, field, entries}
use netbox_openbao.Secrets.Registry.{get, keys}
use netbox_openbao.Administration.Cluster.{items, all_different}

-- A name, a family and a framing.
abbrev pub Operation : Type 0
Operation = String × String × String

abbrev pub contract_version : String
contract_version = "1"

abbrev pub contract_digest : String
contract_digest = "d3eff0f2202d7531181b51bb22e29d7ef5640c4a1257af1c2fe9ce8472bd4cf6"

-- 1 MB, as in cluster.py
abbrev pub max_cluster_json_bytes : ℕ
max_cluster_json_bytes = 1000000

abbrev pub expected_operations : List Operation
expected_operations =
    ("discover_capabilities", "cluster", "json")
    ∷ ("initialization_status", "cluster", "json")
    ∷ ("seal_status", "cluster", "json")
    ∷ ("leader_status", "cluster", "json")
    ∷ ("ha_status", "cluster", "json")
    ∷ ("raft_configuration", "cluster", "json")
    ∷ ("initialize", "cluster", "json")
    ∷ ("join_raft", "cluster", "json")
    ∷ ("unseal", "cluster", "json")
    ∷ ("seal", "cluster", "json")
    ∷ ("remove_raft_peer", "cluster", "json")
    ∷ ("download_raft_snapshot", "cluster", "stream-download")
    ∷ ("restore_raft_snapshot", "cluster", "stream-upload")
    ∷ ("execute_secret_engine_operation", "secret-engines", "json")
    ∷ ("execute_mounted_operation", "mounted-secrets", "json")
    ∷ ("execute_authentication_operation", "authentication", "json")
    ∷ ("execute_access_operation", "access", "json")
    ∷ ("execute_final_operation", "finalization", "json")
    ∷ []

abbrev pub expected_families : List String
expected_families = map (λ (op : Operation). op.1) expected_operations

-- `a == b`, as sets of texts.
unfoldable pub same_texts : List String → List String → Bool
same_texts a b = all (contains_text b) a && all (contains_text a) b

abbrev same_operation : Operation → Operation → Bool
same_operation a b = str_eq a.0 b.0 && str_eq a.1 b.1 && str_eq a.2 b.2

abbrev has_operation : List Operation → Operation → Bool
has_operation l op = any (same_operation op) l

unfoldable pub same_operations : List Operation → List Operation → Bool
same_operations a b = all (has_operation b) a && all (has_operation a) b

unfoldable pub different_operations : List Operation → Bool
different_operations [] = true
different_operations (op ∷ rest) = not (has_operation rest op) && different_operations rest

abbrev pub malformed : Exn
malformed = openbao (record {
  class = configuration;
  message = "The broker returned a malformed administration contract.";
  status_code = none;
})

abbrev pub incompatible : Exn
incompatible = openbao (record {
  class = configuration;
  message = "The broker administration contract is incompatible.";
  status_code = none;
})

abbrev pub incomplete : Exn
incomplete = openbao (record {
  class = configuration;
  message = "The broker administration contract is incomplete.";
  status_code = none;
})

text_of : Exn → Value → Outcome String
text_of e (text s) = ok s
text_of e _ = raise e

list_of : Exn → Value → Outcome (List Value)
unfolding items
list_of e (array vs) = ok (items vs)
list_of e _ = raise e

fields_of : Exn → Value → Outcome Fields
fields_of e (object fields) = ok fields
fields_of e _ = raise e

member : Exn → String → Fields → Outcome Value
unfolding get entries
member e name fields = elim (get name (entries fields)) [ none ↦ raise e | some v ↦ ok v ]

-- `_contract_families`
unfoldable pub contract_families : Value → Outcome (List String)
unfolding list_of text_of each all_different
contract_families v = do
  values ← list_of malformed v
  families ← each (text_of malformed) values
  guard (all_different families) malformed
  ok families

-- `_valid_contract_operation`, and the triple of one.
contract_operation : Value → Outcome Operation
unfolding fields_of member text_of same_texts entries
contract_operation v = do
  fields ← fields_of malformed v
  guard (same_texts (keys (entries fields)) ("name" ∷ "family" ∷ "framing" ∷ [])) malformed
  name ← text_of malformed (← member malformed "name" fields)
  family ← text_of malformed (← member malformed "family" fields)
  framing ← text_of malformed (← member malformed "framing" fields)
  ok (name, family, framing)

-- `_contract_operations`
unfoldable pub contract_operations : Value → Outcome (List Operation)
unfolding list_of contract_operation each different_operations
contract_operations v = do
  values ← list_of malformed v
  operations ← each contract_operation values
  guard (different_operations operations) malformed
  ok operations

-- `document[name] == expected`
is_text : Value → String → Bool
is_text (text s) expected = str_eq s expected
is_text _ expected = false

-- `_validate_contract`
unfoldable pub validate_contract : Value → Outcome (Unit {0})
unfolding fields_of member is_text contract_families contract_operations same_texts same_operations
    entries
validate_contract document = do
  fields ← fields_of malformed document
  guard (same_texts (keys (entries fields)) ("version" ∷ "digest" ∷ "families" ∷ "operations" ∷ []))
      malformed
  version ← member malformed "version" fields
  digest ← member malformed "digest" fields
  guard (is_text version contract_version && is_text digest contract_digest) incompatible
  families ← contract_families (← member malformed "families" fields)
  operations ← contract_operations (← member malformed "operations" fields)
  guard (same_texts families expected_families && same_operations operations expected_operations)
      incomplete

-- What the client reads of a response. The body is its length, read up to one byte past the bound,
-- and the JSON that it is, where reading it and parsing it succeed.
pub record Response : Type 0 where
  pub is_redirect : Bool
  pub status_code : ℕ
  pub outcome_header : String
  pub body : Option (ℕ × Option Value)

-- How a request ends: the connection or the session fails, the session is not configured, or there is
-- a response.
pub data Reply : Type 0 where
  broken : Reply
  unconfigured : String → Reply
  answered : Response → Reply

-- `OpenBaoMutationUnknown()`
abbrev pub unknown : Exn
unknown = openbao (record {
  class = mutation_unknown;
  message = "OpenBao may have accepted the request; verify state before retrying.";
  status_code = none;
})

abbrev pub refusal : OpenBaoClass → String → Option ℕ → Exn
refusal class message status =
    openbao (record { class = class; message = message; status_code = status })

-- `_invalid_response`
unfoldable pub invalid_response : (mutation : Bool) → Exn
invalid_response true = unknown
invalid_response false =
    refusal unavailable "The broker returned an invalid administrative response." none

-- `_status_error`; `lower` is `str.lower`.
unfoldable pub status_error : (lower : String → String) → Response → (mutation : Bool) → Exn
status_error lower r mutation =
    if str_eq (lower r.outcome_header) "unknown"
    then unknown
    else if r.status_code == 401 || r.status_code == 403
    then refusal auth "The broker refused the administrative request." (some r.status_code)
    else if r.status_code == 404
    then refusal not_found "The administrative resource was not found." (some 404)
    else if r.status_code == 400 || r.status_code == 409 || r.status_code == 412
    then refusal conflict "The administrative state transition was refused." (some r.status_code)
    else if r.status_code == 422
    then refusal configuration "The broker rejected the administration contract request." none
    else if mutation && leb 500 r.status_code
    then unknown
    else refusal unavailable "The broker administration request failed." (some r.status_code)

-- What `_send` makes of a reply.
unfoldable pub received : (lower : String → String) → (mutation : Bool) → Reply → Outcome Response
unfolding invalid_response status_error
received lower true broken = raise unknown
received lower false broken = raise (refusal unavailable "The broker is unreachable." none)
received lower mutation (unconfigured message) = raise (refusal configuration message none)
received lower mutation (answered r) = do
  guard (not r.is_redirect) (invalid_response mutation)
  guard (not (leb 400 r.status_code)) (status_error lower r mutation)
  guard (r.status_code == 200) (invalid_response mutation)
  ok r

-- `_decode_json`
unfoldable pub decode_json : (mutation : Bool) → Response → Outcome Value
unfolding invalid_response
decode_json mutation r = elim r.body [
  | none ↦ raise (invalid_response mutation)
  | some (size, parsed) ↦
      guard (leb size max_cluster_json_bytes) (invalid_response mutation)
      >> elim parsed [ none ↦ raise (invalid_response mutation) | some v ↦ ok v ]
]

-- The data of an envelope.
unfoldable pub unwrap : (mutation : Bool) → Value → Outcome Fields
unfolding invalid_response
unwrap mutation (object (field name (object fields) end)) =
    if str_eq name "data" then ok fields else raise (invalid_response mutation)
unwrap mutation _ = raise (invalid_response mutation)

-- A request to the broker: the contract, or an operation with its arguments.
pub data Request : Type 0 where
  contract : Request
  operate : (operation : String) (arguments : Fields) → Request

-- `BrokerAdministrationClient`, whether its contract was verified, with the state of the server.
pub record Client (S : Type 0) : Type 0 where
  pub contract_verified : Bool
  pub server : S

unfoldable pub json_names : List Operation → List String
json_names [] = []
json_names ((name, family, framing) ∷ rest) =
    let others = json_names rest in if str_eq framing "json" then name ∷ others else others

abbrev pub outside : Exn
outside = openbao (record {
  class = configuration;
  message = "The administration operation is outside the pinned broker contract.";
  status_code = none;
})

module _ {S : Type 0} (lower : String → String) (session : Request → S → Reply × S) where
  -- `_send`
  unfoldable pub send : (mutation : Bool) → Request → Exec (Client S) Response
  unfolding received
  send mutation request client =
      let (reply, server) = session request client.server in
      (received lower mutation reply, record client { server = server })

  -- `verify_contract`
  unfoldable pub verify_contract : Exec (Client S) (Unit {0})
  unfolding send decode_json validate_contract
  verify_contract client =
      if client.contract_verified
      then (ok tt, client)
      else continue (send false contract client).0
          (λ response s.
            continue (decode_json false response >>= validate_contract)
              (λ _ t. (ok tt, record t { contract_verified = true })) s)
          (send false contract client).1

  -- The part of `execute` behind the verification.
  unfoldable pub operated : String → Fields → (mutation : Bool) → Exec (Client S) Fields
  unfolding send decode_json unwrap
  operated operation arguments mutation client =
      let (response, client') = send mutation (operate operation arguments) client in
      (response >>= λ r. decode_json mutation r >>= unwrap mutation, client')

  unfoldable pub execute : String → Fields → (mutation : Bool) → Exec (Client S) Fields
  unfolding verify_contract operated json_names
  execute operation arguments mutation client =
      if contains_text (json_names expected_operations) operation
      then (continue (verify_contract client).0 (λ _. operated operation arguments mutation)
          (verify_contract client).1)
      else (raise outside, client)
