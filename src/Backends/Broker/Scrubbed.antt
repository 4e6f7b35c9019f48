-- ===== src/Backends/Broker/Scrubbed.antt =====
-- What the broker backend takes from a response that reports an error.
use netbox_openbao.Prelude.{
  ℕ, String, Option, none, some, List, ◌≡◌, refl, ap, strip_end, ◌<>◌, leb, Bool-cases, inl, inr,
  if◌then◌else◌,
}
use mathlib.Core.Path.{fun_ext}
use netbox_openbao.Models.Paths.{slash}
use netbox_openbao.Exec.{lift, pure, ◌>>=◌, ◌>>◌}
use netbox_openbao.Json.{Value, Payload}
use netbox_openbao.Models.{Engine}
use netbox_openbao.Models.AuthMaterials.{Cipher}
use netbox_openbao.Backends.Broker.{
  field_at, require_kv2, Response, Wire, State, Session, answered, get_session,
}
use netbox_openbao.Backends.Broker.Operations.{
  send, post, post_for, read, write, delete, list_versions, read_metadata, set_metadata,
}

-- A response without its body if it reports an error, and the library that hands it on so.
abbrev pub scrubbed : Response → Response
scrubbed r = if leb 400 r.status_code then record r { json = none } else r

abbrev pub scrubbed_answer : Option Response → Option Response
scrubbed_answer none = none
scrubbed_answer (some r) = some (scrubbed r)

abbrev pub scrubbed_wire : {V : Type 0} → Wire V → Wire V
scrubbed_wire wire = record wire {
  post =
      λ session url body v. let (r, v') = wire.post session url body v in (scrubbed_answer r, v');
}

answered-scrubbed : (r : Option Response) → answered (scrubbed_answer r) ≡ answered r
unfolding answered
answered-scrubbed none = refl
answered-scrubbed (some r) = elim (Bool-cases (leb 400 r.status_code)) [
  | inl e ↦ rw e (rw e refl)
  | inr e ↦ rw e (rw e refl)
]

module _ {V : Type 0} (cipher : Cipher) (secret_key : String) (engine : Engine)
    (wire : Wire V) where
  send-scrubbed :
      (endpoint : String) (body : Value) (session : Session) (s : State V)
      → send cipher secret_key engine (scrubbed_wire wire) endpoint body session s
        ≡ send cipher secret_key engine wire endpoint body session s
  unfolding send
  send-scrubbed endpoint body session s =
      ap
        (λ r. (
          r,
          record s {
            service =
                (wire.post session (strip_end slash engine.api_url <> endpoint) body s.service).1;
          },
        ))
        (answered-scrubbed
          (wire.post session (strip_end slash engine.api_url <> endpoint) body s.service).0)

  post-scrubbed :
      (endpoint : String) (body : Value)
      → post cipher secret_key engine (scrubbed_wire wire) endpoint body
        ≡ post cipher secret_key engine wire endpoint body
  unfolding post
  post-scrubbed endpoint body =
      ap (λ f. get_session cipher secret_key engine >>= f)
        (fun_ext λ session. fun_ext λ s. send-scrubbed endpoint body session s)

  post_for-scrubbed :
      (name endpoint : String) (body : Value)
      → post_for cipher secret_key engine (scrubbed_wire wire) name endpoint body
        ≡ post_for cipher secret_key engine wire name endpoint body
  unfolding post_for
  post_for-scrubbed name endpoint body =
      ap (λ m. m >>= λ answer. lift (field_at name answer)) (post-scrubbed endpoint body)

  -- The body of a response that reports an error reaches no result and no exception: each operation does the same when the
  -- library drops it.
  pub operations-scrubbed :
      ((path : String) (version : Option ℕ)
        → read cipher secret_key engine (scrubbed_wire wire) path version
          ≡ read cipher secret_key engine wire path version)
      × ((path : String) (material : Payload) (cas : Option ℕ)
          → write cipher secret_key engine (scrubbed_wire wire) path material cas
            ≡ write cipher secret_key engine wire path material cas)
      × ((path : String) (versions : List (Option ℕ))
          → delete cipher secret_key engine (scrubbed_wire wire) path versions
            ≡ delete cipher secret_key engine wire path versions)
      × ((path : String)
          → list_versions cipher secret_key engine (scrubbed_wire wire) path
            ≡ list_versions cipher secret_key engine wire path)
      × ((path : String)
          → read_metadata cipher secret_key engine (scrubbed_wire wire) path
            ≡ read_metadata cipher secret_key engine wire path)
      × ((path : String) (metadata : Payload)
          → set_metadata cipher secret_key engine (scrubbed_wire wire) path metadata
            ≡ set_metadata cipher secret_key engine wire path metadata)
  unfolding read write delete list_versions read_metadata set_metadata require_kv2
  operations-scrubbed = (
    λ path version.
        ap (λ m. require_kv2 cipher secret_key engine "Reading a secret through the broker" >> m)
          (post_for-scrubbed _ _ _),
    λ path material cas.
        ap (λ m. require_kv2 cipher secret_key engine "Writing a secret through the broker" >> m)
          (post_for-scrubbed _ _ _),
    λ path versions.
        ap
          (λ m.
            require_kv2 cipher secret_key engine "Deleting a secret through the broker"
            >> (m >> pure tt))
          (post-scrubbed _ _),
    λ path.
        ap (λ m. require_kv2 cipher secret_key engine "Listing versions through the broker" >> m)
          (post_for-scrubbed _ _ _),
    λ path.
        ap (λ m. require_kv2 cipher secret_key engine "Reading metadata through the broker" >> m)
          (post_for-scrubbed _ _ _),
    λ path metadata.
        ap
          (λ m.
            require_kv2 cipher secret_key engine "Setting custom metadata through the broker"
            >> (m >> pure tt))
          (post-scrubbed _ _),
  )
