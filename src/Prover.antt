-- ===== src/Prover.antt =====
-- tee/crates: the prover in the enclave and the web server before it. Here are the messages of
-- shielder-prover-common/src/protocol.rs and the connection of its src/vsock.rs. The socket and its
-- frames (tokio) and the encoding of messages (serde_json) are parameters.
pub mod Server
pub mod Proxy
pub mod Connection
pub mod Sealed
pub mod Circuits
use zk_os_monorepo.Base.{ℕ, Bool, Option, none, some, List, [], ◌∷◌, ◌++◌, if◌then◌else◌}
use zk_os_monorepo.Outcome.{Outcome, ok, err, panic, ok_or}

pub data CircuitType : Type 0 where
  new_account deposit withdraw : CircuitType

pub record Payload : Type 0 where
  pub circuit_type : CircuitType
  pub user_public_key : List ℕ
  pub circuit_inputs : List ℕ

pub data Request : Type 0 where
  ping tee_public_key : Request
  generate_proof : List ℕ → Request

-- A public key's text and its attestation; an encrypted proof and its encrypted public inputs.
pub data Response : Type 0 where
  pong : Response
  public_key_response : List ℕ → List ℕ → Response
  encrypted_proof : List ℕ → List ℕ → Response

-- The texts of the errors are left out.
pub data VsockError : Type 0 where
  io serde protocol closed : VsockError

-- What the next read gives, while the peer has not closed the connection.
pub data Incoming : Type 0 where
  frame : List ℕ → Incoming
  broken : Incoming

-- The frames to come, and the frames that are written.
pub record Vsock : Type 0 where
  pub read : List Incoming
  pub write : List (List ℕ)

-- Whether the socket takes one more frame after those written.
module _ (accepts : List (List ℕ) → Bool) where
  unfoldable pub send :
      {T : Type 0} → (T → Option (List ℕ)) → Vsock → T → Vsock × Outcome VsockError (Unit {0})
  send to_vec vsock msg = elim (to_vec msg) [
    | none ↦ (vsock, err serde)
    | some bytes ↦
        if accepts vsock.write
        then (record vsock { write = vsock.write ++ bytes ∷ [] }, ok tt)
        else (vsock, err io)
  ]

  unfoldable pub recv : {T : Type 0} → (List ℕ → Option T) → Vsock → Vsock × Outcome VsockError T
  recv deserialize vsock = elim vsock.read [
    | [] ↦ (vsock, err closed)
    | broken ∷ rest ↦ (record vsock { read = rest }, err io)
    | frame msg ∷ rest ↦ (record vsock { read = rest }, ok_or (deserialize msg) serde)
  ]

  -- `VsockServer::handle_request`
  unfoldable pub handle_request :
      {Req Resp : Type 0}
      → (List ℕ → Option Req)
      → (Resp → Option (List ℕ))
      → (Req → Outcome VsockError Resp)
      → Vsock
      → Vsock × Outcome VsockError (Unit {0})
  unfolding send recv
  handle_request deserialize to_vec handler vsock =
      let received = recv deserialize vsock in
      elim received.1 [
        | err e ↦ (received.0, err e)
        | panic ↦ (received.0, panic)
        | ok req ↦ elim (handler req) [
          | err e ↦ (received.0, err e)
          | panic ↦ (received.0, panic)
          | ok res ↦ send to_vec received.0 res
        ]
      ]

  -- `VsockClient::request`; the peer answers what was written with what is then to be read.
  unfoldable pub request :
      {Req Resp : Type 0}
      → (Req → Option (List ℕ))
      → (List ℕ → Option Resp)
      → (List (List ℕ) → List Incoming)
      → Req
      → Outcome VsockError Resp
  unfolding send recv
  request to_vec deserialize peer req =
      let sent = send to_vec (record { read = []; write = [] }) req in
      elim sent.1 [
        | err e ↦ err e
        | panic ↦ panic
        | ok _ ↦ (recv deserialize (record sent.0 { read = peer sent.0.write })).1
      ]
