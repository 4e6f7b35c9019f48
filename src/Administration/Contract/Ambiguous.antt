-- ===== src/Administration/Contract/Ambiguous.antt =====
-- When the client says that the outcome of a mutation is not known.
use netbox_openbao.Prelude.{
  ℕ, String, Bool, true, false, Option, none, some, ◌≡◌, refl, arith, not, ◌&&◌, ◌||◌, leb, ◌==◌,
  str_eq, if◌then◌else◌, contains_text,
}
use netbox_openbao.Errors.{openbao, OpenBaoClass}
use netbox_openbao.Exec.{Outcome, ok, raise}
use netbox_openbao.Exec.Outcomes.{◌>>=◌, ◌>>◌, guard}
use netbox_openbao.Json.{Value, object, Fields, end, field}
use netbox_openbao.Administration.Contract.{
  Client, Response, Reply, broken, unconfigured, answered, Request, operate, received, decode_json,
  unwrap, send, verify_contract, operated, execute, invalid_response, status_error,
  max_cluster_json_bytes, json_names, expected_operations,
}

-- The body is the envelope of some data.
envelope : Value → Bool
envelope (object (field name (object fields) end)) = str_eq name "data"
envelope _ = false

readable : Option (ℕ × Option Value) → Bool
readable none = false
readable (some (size, none)) = false
readable (some (size, some v)) = leb size max_cluster_json_bytes && envelope v

-- A reply that leaves it open whether the server did what it was asked: none at all, one that says
-- so, a redirection, an error of the server, or a success that cannot be read.
pub inconclusive : (lower : String → String) → Reply → Bool
inconclusive lower broken = true
inconclusive lower (unconfigured message) = false
inconclusive lower (answered r) =
    r.is_redirect
    || (if leb 400 r.status_code
        then (str_eq (lower r.outcome_header) "unknown" || leb 500 r.status_code)
        else (not (r.status_code == 200) || not (readable r.body)))

-- Whether a result is the exception for an unknown outcome.
pub unknown_result : Outcome Fields → Bool
unknown_result (raise (openbao e)) = elim e.class [
  | OpenBaoClass.mutation_unknown ↦ true
  | _ ↦ false
]
unknown_result _ = false

unwrap-unknown : (v : Value) → unknown_result (unwrap true v) ≡ not (envelope v)
unfolding unwrap envelope unknown_result invalid_response
unwrap-unknown (object (field name (object fields) end)) = ground arith
unwrap-unknown _ = refl

decode-unknown :
    (r : Response) → unknown_result (decode_json true r >>= unwrap true) ≡ not (readable r.body)
unfolding decode_json readable unknown_result invalid_response
decode-unknown r = go r.body
  where
    go :
        (body : Option (ℕ × Option Value))
        → unknown_result (
            elim body [
              | none ↦ raise (invalid_response true)
              | some (size, parsed) ↦
                  guard (leb size max_cluster_json_bytes) (invalid_response true)
                  >> elim parsed [ none ↦ raise (invalid_response true) | some v ↦ ok v ]
            ]
            >>= unwrap true)
          ≡ not (readable body)
    go none = refl
    go (some (size, none)) = ground arith
    go (some (size, some v)) = ground (arith, unwrap-unknown v)

received-unknown :
    (lower : String → String) (reply : Reply)
    → unknown_result (received lower true reply >>= λ r. decode_json true r >>= unwrap true)
      ≡ inconclusive lower reply
unfolding received inconclusive unknown_result status_error invalid_response
received-unknown lower broken = refl
received-unknown lower (unconfigured message) = refl
received-unknown lower (answered r) = ground (arith, decode-unknown r)

-- For a client whose contract is verified and a mutation that the contract has: it ends in the
-- exception that says that its outcome is not known exactly if the reply of the broker leaves the
-- outcome open.
pub execute-unknown :
    {S : Type 0} (lower : String → String) (session : Request → S → Reply × S) (operation : String)
    (arguments : Fields) (client : Client S)
    → client.contract_verified ≡ true
    → contains_text (json_names expected_operations) operation ≡ true
    → unknown_result (execute lower session operation arguments true client).0
      ≡ inconclusive lower (session (operate operation arguments) client.server).0
unfolding execute verify_contract operated send
execute-unknown lower session operation arguments client verified known =
    rw (known, verified)
      (received-unknown lower (session (operate operation arguments) client.server).0)
