-- ===== src/Prover/Sealed.antt =====
-- A proof on its way from the user through the web server to the enclave and back.
use zk_os_monorepo.Base.{ℕ, ◌+◌, ◌≡◌, Bool, true, Option, some, List, [], map, length, arith}
use zk_os_monorepo.Outcome.{ok}
use zk_os_monorepo.Prover.{
  Payload, CircuitType, Request, generate_proof, Response, encrypted_proof, frame, handle_request,
  request, send, recv,
}
use zk_os_monorepo.Prover.Server.{
  Ecies, SerializableCircuit, Server, Draws, compute_proof_for_circuit, answer, do_handle_client,
}
use zk_os_monorepo.Prover.Proxy.{tee_request, Tee, completed, generate_proof_handler}

-- A pair of keys in their encodings: what is encrypted to the public one is opened by the private one.
pub record IsKeyPair (ecies : Ecies) (public private : List ℕ) : Type 0 where
  pub pub_key : ecies.PubKey
  pub priv_key : ecies.PrivKey
  pub reads_public : ecies.pub_from_bytes public ≡ some pub_key
  pub reads_private : ecies.priv_from_bytes private ≡ some priv_key
  pub opens :
      (draw : ℕ) (bytes : List ℕ)
      → ecies.decrypt (ecies.encrypt draw bytes pub_key) priv_key ≡ some bytes

-- Each message is encoded, and decoded as it was.
pub record IsLossless {T : Type 0} (to_vec : T → Option (List ℕ)) (from_slice : List ℕ → Option T)
    : Type 0 where
  pub bytes : T → List ℕ
  pub encodes : (t : T) → to_vec t ≡ some (bytes t)
  pub decodes : (t : T) → from_slice (bytes t) ≡ some t

module _ (ecies : Ecies) (is_utf8 : List ℕ → Bool) (payload_from_str : List ℕ → Option Payload)
    (circuit : CircuitType → SerializableCircuit) (request_to_vec : Request → Option (List ℕ))
    (request_from_slice : List ℕ → Option Request) (response_to_vec : Response → Option (List ℕ))
    (response_from_slice : List ℕ → Option Response) (draws : ℕ → Draws) (server : Server) where
  -- The enclave behind a socket that takes each frame.
  abbrev pub enclave : Tee
  enclave = record {
    connects = true;
    accepts = λ _. true;
    peer = λ written.
        map frame
          (do_handle_client ecies is_utf8 payload_from_str circuit (λ _. true) request_from_slice
            response_to_vec draws server (length written + 1)
            (record { read = map frame written; write = [] })).0.write;
  }

  answer_lem :
      (user_private_key payload_text proof public_inputs : List ℕ) (payload : Payload) (d : Draws)
      (draw : ℕ) (keys : IsKeyPair ecies server.public_key server.private_key)
      (user : IsKeyPair ecies payload.user_public_key user_private_key)
      → is_utf8 payload_text ≡ true
      → payload_from_str payload_text ≡ some payload
      → compute_proof_for_circuit (circuit payload.circuit_type) d.prove payload.circuit_inputs
        ≡ ok (proof, public_inputs)
      → answer ecies is_utf8 payload_from_str circuit server d
          (generate_proof (ecies.encrypt draw payload_text keys.pub_key))
        ≡ ok (
            encrypted_proof
              (ecies.encrypt d.encrypt_proof proof user.pub_key)
              (ecies.encrypt d.encrypt_pub_inputs public_inputs user.pub_key))
  unfolding answer
  answer_lem user_private_key payload_text proof public_inputs payload d draw keys user utf8 parsed
        proved =
      ground (
        arith,
        keys.reads_private,
        keys.opens draw payload_text,
        utf8,
        parsed,
        proved,
        user.reads_public,
      )

  served_lem :
      (req : Request) (res : Response) (requests : IsLossless request_to_vec request_from_slice)
      (responses : IsLossless response_to_vec response_from_slice)
      → answer ecies is_utf8 payload_from_str circuit server (draws 0) req ≡ ok res
      → tee_request request_to_vec response_from_slice enclave req ≡ ok res
  unfolding tee_request request send recv do_handle_client handle_request
  served_lem req res requests responses answered = ground (
    arith,
    requests.encodes req,
    requests.decodes req,
    responses.encodes res,
    responses.decodes res,
    answered,
  )

  -- Let the server and the user have key pairs, let the messages be encoded without loss, let the pool
  -- complete the task and the sockets take each frame. If a user encrypts the text of a payload to the
  -- server's key, and the payload's circuit gives a proof and public inputs from the payload's inputs,
  -- then the web server responds with two ciphertexts, which the user's key opens to the proof and to
  -- the public inputs.
  pub generate_proof_lem :
      (user_private_key payload_text proof public_inputs : List ℕ) (payload : Payload) (draw : ℕ)
      (keys : IsKeyPair ecies server.public_key server.private_key)
      (user : IsKeyPair ecies payload.user_public_key user_private_key)
      → IsLossless request_to_vec request_from_slice
      → IsLossless response_to_vec response_from_slice
      → is_utf8 payload_text ≡ true
      → payload_from_str payload_text ≡ some payload
      → compute_proof_for_circuit
          (circuit payload.circuit_type)
          (draws 0).prove
          payload.circuit_inputs
        ≡ ok (proof, public_inputs)
      → (sealed_proof : List ℕ) × (sealed_inputs : List ℕ) × (generate_proof_handler request_to_vec
            response_from_slice completed enclave
            (ecies.encrypt draw payload_text keys.pub_key)
          ≡ ok (encrypted_proof sealed_proof sealed_inputs))
        × (ecies.decrypt sealed_proof user.priv_key ≡ some proof)
        × (ecies.decrypt sealed_inputs user.priv_key ≡ some public_inputs)
  unfolding generate_proof_handler
  generate_proof_lem user_private_key payload_text proof public_inputs payload draw keys user
        requests responses utf8 parsed proved =
      let d = draws 0 in
      let sealed_proof = ecies.encrypt d.encrypt_proof proof user.pub_key in
      let sealed_inputs = ecies.encrypt d.encrypt_pub_inputs public_inputs user.pub_key in
      let answered =
        answer_lem user_private_key payload_text proof public_inputs payload d draw keys user utf8
          parsed proved in
      let served =
        served_lem (generate_proof (ecies.encrypt draw payload_text keys.pub_key))
          (encrypted_proof sealed_proof sealed_inputs) requests responses answered in
      (
        sealed_proof,
        sealed_inputs,
        ground (arith, served),
        user.opens d.encrypt_proof proof,
        user.opens d.encrypt_pub_inputs public_inputs,
      )
