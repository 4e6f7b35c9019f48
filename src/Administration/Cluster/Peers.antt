-- ===== src/Administration/Cluster/Peers.antt =====
-- What a Raft configuration that was accepted guarantees to its readers.
use netbox_openbao.Prelude.{
  ℕ, ◌≤◌, String, true, false, some, List, [], ◌∷◌, ◌≡◌, ◌≢◌, sym, arith, All, Member, here, there,
  length, map, not, ◌&&◌, ◌||◌, leb, contains_text, str_eq, str_eq_iff, first, Bool-cases, inl, inr,
  ap, ◌∙◌,
}
use netbox_openbao.Errors.{Exn}
use netbox_openbao.Exec.{ok}
use netbox_openbao.Exec.Outcomes.{
  each, Ensures, ensured, Ensures->>=, Ensures-guard, Ensures-each, Ensures-chain,
}
use netbox_openbao.Json.{Value, null, text, array, object}
use netbox_openbao.Administration.Values.{
  returned_invalid, get_or, mapping, boolean, integer, string_of, text_length, has_control,
}
use netbox_openbao.Administration.Cluster.{
  RaftPeer, RaftConfiguration, max_raft_peers, items, bounded_items, protocol_of,
  normalize_raft_peer, all_different, normalize_raft_configuration, peer,
}

-- A text of one to `maximum` characters, none of them a control character.
pub record Printable (maximum : ℕ) (s : String) : Type 0 where
  pub bounded : text_length s ≤ maximum
  pub clean : has_control s ≡ false
  pub filled : s ≢ ""

string_of-Printable :
    (v : Value) (name : String) (maximum : ℕ)
    → Ensures (Printable maximum) (string_of v name maximum false)
unfolding string_of
string_of-Printable (text t) name maximum =
    Ensures-guard _ (leb (text_length t) maximum && not (has_control t)) _ _ λ fits.
      Ensures-guard _ (false || not (str_eq t "")) _ _ λ given. record {
        bounded = ground (arith, fits);
        clean = ground (arith, fits);
        filled = λ e. ground (arith, given, (str_eq_iff t "").1 e);
      }
string_of-Printable _ name maximum = tt

-- A peer whose identifier and address are such texts.
abbrev pub Addressed : RaftPeer → Type 0
Addressed p = Printable 200 p.node_id × Printable 500 p.address

normalize_raft_peer-Addressed : (v : Value) → Ensures Addressed (normalize_raft_peer v)
unfolding normalize_raft_peer
normalize_raft_peer-Addressed v = Ensures->>= _ (mapping v "Raft peer") _ λ fields _.
    Ensures->>= _ (protocol_of (get_or "protocol_version" null fields)) _ λ protocol _.
      Ensures-chain _ (Printable 200)
        (string_of (get_or "node_id" (text "") fields) "Raft node ID" 200 false) _
        (string_of-Printable (get_or "node_id" (text "") fields) "Raft node ID" 200)
        λ node_id n.
          Ensures-chain _ (Printable 500)
            (string_of (get_or "address" (text "") fields) "Raft address" 500 false) _
            (string_of-Printable (get_or "address" (text "") fields) "Raft address" 500)
            λ address a.
              Ensures->>= _ (boolean (get_or "leader" null fields) "Raft leader state") _
                λ leader _.
                  Ensures->>= _ (boolean (get_or "voter" null fields) "Raft voter state") _
                    λ voter _. (n, a)

bounded_items-length :
    (v : Value) (limit : ℕ) (e : Exn) → Ensures (λ vs. length vs ≤ limit) (bounded_items v limit e)
unfolding bounded_items
bounded_items-length (array l) limit e =
    Ensures-guard _ (leb (length (items l)) limit) e (ok (items l)) λ fits. ground (arith, fits)
bounded_items-length _ limit e = tt

-- An identifier that is not among those of a list is no peer's of it.
other-node :
    (p q : RaftPeer) (rest : List RaftPeer)
    → contains_text (map (λ x. x.node_id) rest) q.node_id ≡ false
    → Member p rest
    → str_eq q.node_id p.node_id ≡ false
other-node p q [] h m = elim m [ ]
other-node p q (r ∷ rest) h (here e) =
    let apart : str_eq r.node_id q.node_id ≡ false = ground (arith, h) in
    let same = ap (λ (x : RaftPeer). x.node_id) e in
    elim (Bool-cases (str_eq q.node_id p.node_id)) [
      | inl equal ↦ absurd (
          ground (
            arith,
            apart,
            (str_eq_iff r.node_id q.node_id).1
                (same ∙ sym ((str_eq_iff q.node_id p.node_id).0 equal)),
          ))
      | inr unequal ↦ unequal
    ]
other-node p q (r ∷ rest) h (there m) = other-node p q rest (ground (arith, h)) m

first-node :
    (p : RaftPeer) (peers : List RaftPeer)
    → all_different (map (λ x. x.node_id) peers) ≡ true
    → Member p peers
    → first (λ x. str_eq x.node_id p.node_id) peers ≡ some p
unfolding all_different
first-node p [] different m = elim m [ ]
first-node p (q ∷ rest) different (here e) =
    ground (arith, e, (str_eq_iff q.node_id p.node_id).1 (ap (λ (x : RaftPeer). x.node_id) e))
first-node p (q ∷ rest) different (there m) =
    ground (arith, different, other-node p q rest, first-node p rest)

abbrev Reliable : RaftConfiguration → Type 0
Reliable config =
    (length config.peers ≤ max_raft_peers)
    × All Addressed config.peers
    × ((p : RaftPeer) → Member p config.peers → peer config p.node_id ≡ some p)

normalize_raft_configuration-Reliable :
    (payload : Value) → Ensures Reliable (normalize_raft_configuration payload)
unfolding normalize_raft_configuration peer
normalize_raft_configuration-Reliable payload =
    Ensures->>= _ (mapping payload "Raft configuration") _ λ value _.
      Ensures->>= _ (mapping (get_or "data" (object value) value) "Raft configuration data") _
        λ inner _.
          Ensures->>= _ (mapping (get_or "config" (object inner) inner) "Raft configuration object")
            _
            λ conf _.
              Ensures-chain _ (λ vs. length vs ≤ max_raft_peers)
                (bounded_items (get_or "servers" null conf) max_raft_peers
                  (returned_invalid "Raft peers"))
                _
                (bounded_items-length (get_or "servers" null conf) max_raft_peers
                  (returned_invalid "Raft peers"))
                λ servers few.
                  Ensures-chain _ (λ ys. All Addressed ys × (length ys ≡ length servers))
                    (each normalize_raft_peer servers) _
                    (Ensures-each Addressed normalize_raft_peer servers
                      normalize_raft_peer-Addressed)
                    λ peers addressed.
                      Ensures-guard _ (all_different (map (λ x. x.node_id) peers)) _ _ λ different.
                        Ensures->>= _
                          (integer (get_or "index" null conf) "Raft configuration index") _
                          λ index _.
                            let (all, count) = addressed in
                            (omega (arith, count, few), all, λ p. first-node p peers different)

-- Where a Raft configuration is accepted: it has at most 256 peers; the identifier and the address
-- of each are not blank, within 200 and 500 characters, and free of control characters; and a
-- look-up by the identifier of a peer finds exactly that peer.
pub normalize_raft_configuration-ok :
    (payload : Value) (config : RaftConfiguration)
    → normalize_raft_configuration payload ≡ ok config
    → (length config.peers ≤ max_raft_peers)
      × All Addressed config.peers
      × ((p : RaftPeer) → Member p config.peers → peer config p.node_id ≡ some p)
normalize_raft_configuration-ok payload config h =
    ensured Reliable (normalize_raft_configuration payload)
      (normalize_raft_configuration-Reliable payload) h
