-- ===== src/Prover/Server.antt =====
-- tee/crates/shielder-prover-tee/src/server.rs. The encryption (ecies_encryption_lib), the driver of
-- the enclave, the reading of a payload from JSON and the three circuits are parameters.
use zk_os_monorepo.Base.{ℕ, zero, suc, Bool, Option, List, length}
use zk_os_monorepo.Outcome.{Outcome, ok, err, panic, ok_or, or_panic, guard, ◌>>=◌, ◌>>◌}
use zk_os_monorepo.Prover.{
  CircuitType, Payload, Request, ping, tee_public_key, generate_proof, Response, pong,
  public_key_response, encrypted_proof, VsockError, serde, protocol, Vsock, handle_request,
}

-- What an encryption draws is a number.
pub record Ecies : Type 1 where
  pub PrivKey : Type 0
  pub PubKey : Type 0
  pub priv_from_bytes : List ℕ → Option PrivKey
  pub pub_from_bytes : List ℕ → Option PubKey
  pub decrypt : List ℕ → PrivKey → Option (List ℕ)
  pub encrypt : ℕ → List ℕ → PubKey → List ℕ

-- `SerializableCircuit`: what serde reads, the public inputs and the proof, which may panic, and the
-- public inputs as serde writes them.
pub record SerializableCircuit : Type 1 where
  pub Input : Type 0
  pub Output : Type 0
  pub deserialize : List ℕ → Option Input
  pub pub_inputs : Input → Option Output
  pub prove : ℕ → Input → Option (List ℕ)
  pub to_vec : Output → Option (List ℕ)

-- The server's keys, the answer of the enclave's driver, and the hexadecimal form of a key.
pub record Server : Type 0 where
  pub private_key : List ℕ
  pub public_key : List ℕ
  pub attestation : List ℕ → Option (List ℕ)
  pub to_hex : List ℕ → List ℕ

-- What answering one request draws.
pub record Draws : Type 0 where
  pub prove : ℕ
  pub encrypt_proof : ℕ
  pub encrypt_pub_inputs : ℕ

unfoldable pub compute_proof_for_circuit :
    (c : SerializableCircuit) → ℕ → List ℕ → Outcome VsockError (List ℕ × List ℕ)
compute_proof_for_circuit c draw serialized_circuit_inputs = do
  input ← ok_or (c.deserialize serialized_circuit_inputs) protocol
  pub_inputs ← or_panic (c.pub_inputs input)
  proof ← or_panic (c.prove draw input)
  bytes ← ok_or (c.to_vec pub_inputs) serde
  ok (proof, bytes)

unfoldable pub public_key_answer : Server → Outcome VsockError Response
public_key_answer server = do
  attestation_document ← ok_or (server.attestation server.public_key) protocol
  ok (public_key_response (server.to_hex server.public_key) attestation_document)

module _ (ecies : Ecies) where
  unfoldable pub encrypt_bytes : ℕ → List ℕ → List ℕ → Outcome VsockError (List ℕ)
  encrypt_bytes draw user_public_key bytes = do
    pub_key ← ok_or (ecies.pub_from_bytes user_public_key) protocol
    ok (ecies.encrypt draw bytes pub_key)

  unfoldable pub decrypt_using_servers_private_key : Server → List ℕ → Outcome VsockError (List ℕ)
  decrypt_using_servers_private_key server request_payload = do
    private_key ← ok_or (ecies.priv_from_bytes server.private_key) protocol
    ok_or (ecies.decrypt request_payload private_key) protocol

  -- `from_utf8` and the reading of a payload, and the circuit of a type.
  module _ (is_utf8 : List ℕ → Bool) (payload_from_str : List ℕ → Option Payload)
      (circuit : CircuitType → SerializableCircuit) where
    unfoldable pub encrypted_proof_answer :
        Server → Draws → List ℕ → Outcome VsockError (List ℕ × List ℕ)
    unfolding encrypt_bytes decrypt_using_servers_private_key
    encrypted_proof_answer server draws request_payload = do
      decrypted ← decrypt_using_servers_private_key server request_payload
      guard (is_utf8 decrypted) protocol
      payload ← ok_or (payload_from_str decrypted) serde
      proved ←
          compute_proof_for_circuit (circuit payload.circuit_type) draws.prove
            payload.circuit_inputs
      proof ← encrypt_bytes draws.encrypt_proof payload.user_public_key proved.0
      pub_inputs ← encrypt_bytes draws.encrypt_pub_inputs payload.user_public_key proved.1
      ok (proof, pub_inputs)

    -- The closure that `do_handle_client` passes on.
    unfoldable pub answer : Server → Draws → Request → Outcome VsockError Response
    unfolding encrypted_proof_answer public_key_answer
    answer server draws ping = ok pong
    answer server draws tee_public_key = public_key_answer server
    answer server draws (generate_proof payload) = do
      sealed ← encrypted_proof_answer server draws payload
      ok (encrypted_proof sealed.0 sealed.1)

    module _ (accepts : List (List ℕ) → Bool) (request_from_slice : List ℕ → Option Request)
        (response_to_vec : Response → Option (List ℕ)) (draws : ℕ → Draws) where
      -- The loop, on fuel. It ends by an error or a panic only: `ok` means that the fuel ran out. What
      -- an answer draws is numbered by the frames written before it.
      unfoldable pub do_handle_client : Server → ℕ → Vsock → Vsock × Outcome VsockError (Unit {0})
      do_handle_client server zero vsock = (vsock, ok tt)
      do_handle_client server (suc fuel) vsock =
          let handled =
            handle_request accepts request_from_slice response_to_vec
              (answer server (draws (length vsock.write))) vsock in
          elim handled.1 [
            | ok _ ↦ do_handle_client server fuel handled.0
            | err e ↦ (handled.0, err e)
            | panic ↦ (handled.0, panic)
          ]
