-- ===== src/Tests/Prover.antt =====
-- The enclave's prover with a cipher that marks its texts by the key, and messages as numbers.
use zk_os_monorepo.Base.{
  drop, drop-append, take, take-append, ℕ, ◌+◌, ◌≡◌, ◌≢◌, refl, Bool, true, Option, none, some,
  List, [], ◌∷◌, ◌++◌, length, ltb, ◌==◌, if◌then◌else◌, arith,
}
use zk_os_monorepo.Outcome.{ok}
use zk_os_monorepo.Prover.{
  Payload, CircuitType, new_account, Request, ping, tee_public_key, generate_proof, Response, pong,
  public_key_response, encrypted_proof, Incoming, frame, broken,
}
use zk_os_monorepo.Prover.Server.{
  Ecies, SerializableCircuit, Server, Draws, compute_proof_for_circuit, do_handle_client, answer,
}
use zk_os_monorepo.Prover.Proxy.{completed, generate_proof_handler}
use zk_os_monorepo.Prover.Connection.{do_handle_client_lem}
use zk_os_monorepo.Prover.Sealed.{IsKeyPair, IsLossless, enclave, generate_proof_lem}

-- A key is one number, the same for both halves, and stands before each ciphertext.
abbrev one_number : List ℕ → Option ℕ
one_number [] = none
one_number (k ∷ []) = some k
one_number (k ∷ l ∷ ks) = none

abbrev open_with : List ℕ → ℕ → Option (List ℕ)
open_with [] key = none
open_with (k ∷ text) key = if k == key then some text else none

abbrev ecies : Ecies
ecies = record {
  PrivKey = ℕ;
  PubKey = ℕ;
  priv_from_bytes = one_number;
  pub_from_bytes = one_number;
  decrypt = open_with;
  encrypt = λ draw text key. key ∷ text;
}

opened : (k draw : ℕ) (bytes : List ℕ) → open_with (k ∷ bytes) k ≡ some bytes
opened k draw bytes = ground arith

abbrev key_pair : (k : ℕ) → IsKeyPair ecies (k ∷ []) (k ∷ [])
key_pair k = record {
  pub_key = k;
  priv_key = k;
  reads_public = refl;
  reads_private = refl;
  opens = opened k;
}

-- The first number is the user's key, and the rest the inputs.
abbrev payload_from_str : List ℕ → Option Payload
payload_from_str [] = none
payload_from_str (k ∷ inputs) =
    some (record { circuit_type = new_account; user_public_key = k ∷ []; circuit_inputs = inputs })

abbrev circuit : CircuitType → SerializableCircuit
circuit c = record {
  Input = List ℕ;
  Output = List ℕ;
  deserialize = λ bytes. some bytes;
  pub_inputs = λ input. some (1 ∷ input);
  prove = λ draw input. some (draw ∷ input);
  to_vec = λ output. some output;
}

abbrev request_bytes : Request → List ℕ
request_bytes ping = []
request_bytes tee_public_key = 1 ∷ []
request_bytes (generate_proof payload) = 2 ∷ 2 ∷ payload

abbrev request_from_slice : List ℕ → Option Request
request_from_slice [] = some ping
request_from_slice (x ∷ []) = some tee_public_key
request_from_slice (x ∷ y ∷ payload) = some (generate_proof payload)

request_back : (r : Request) → request_from_slice (request_bytes r) ≡ some r
request_back ping = refl
request_back tee_public_key = refl
request_back (generate_proof payload) = refl

abbrev request_to_vec : Request → Option (List ℕ)
request_to_vec r = some (request_bytes r)

requests : IsLossless request_to_vec request_from_slice
requests = record { bytes = request_bytes; encodes = λ r. refl; decodes = request_back }

abbrev server : Server
server = record {
  private_key = 40 ∷ [];
  public_key = 40 ∷ [];
  attestation = λ key. some (9 ∷ key);
  to_hex = λ key. key;
}

abbrev draws : ℕ → Draws
draws n = record { prove = n + 3; encrypt_proof = n + 4; encrypt_pub_inputs = n + 5 }

abbrev accepts : List (List ℕ) → Bool
accepts written = ltb (length written) 10

-- A response as two lists: the first one's length, and both.
abbrev response_bytes : Response → List ℕ
response_bytes pong = []
response_bytes (public_key_response key document) = 1 ∷ length key ∷ key ++ document
response_bytes (encrypted_proof proof inputs) = 2 ∷ length proof ∷ proof ++ inputs

abbrev response_to_vec : Response → Option (List ℕ)
response_to_vec r = some (response_bytes r)

abbrev read : List Incoming
read = frame [] ∷ frame (2 ∷ 2 ∷ 40 ∷ 50 ∷ 6 ∷ []) ∷ broken ∷ frame [] ∷ []

do_handle_client_lem_example :
    (let ended =
        do_handle_client ecies
          (λ text. true)
          payload_from_str
          circuit
          accepts
          request_from_slice
          response_to_vec
          draws
          server
          5
          (record { read = read; write = [] }) in
      (ended.0.write ≡ [] ∷ (2 ∷ 3 ∷ 50 ∷ 4 ∷ 6 ∷ 50 ∷ 1 ∷ 6 ∷ []) ∷ []) × (ended.1 ≢ ok tt))
unfolding answer compute_proof_for_circuit
do_handle_client_lem_example =
    do_handle_client_lem ecies (λ text. true) payload_from_str circuit accepts request_from_slice
      response_to_vec draws server 5 read [] (omega arith)

abbrev response_from_slice : List ℕ → Option Response
response_from_slice [] = some pong
response_from_slice (kind ∷ []) = none
response_from_slice (kind ∷ n ∷ bytes) =
    if kind == 1
    then some (public_key_response (take n bytes) (drop n bytes))
    else some (encrypted_proof (take n bytes) (drop n bytes))

response_back : (r : Response) → response_from_slice (response_bytes r) ≡ some r
response_back pong = refl
response_back (public_key_response key document) =
    ground (
      arith,
      take-append key document (length key) refl,
      drop-append key document (length key) refl,
    )
response_back (encrypted_proof proof inputs) = ground (
  arith,
  take-append proof inputs (length proof) refl,
  drop-append proof inputs (length proof) refl,
)

responses : IsLossless response_to_vec response_from_slice
responses = record { bytes = response_bytes; encodes = λ r. refl; decodes = response_back }

generate_proof_lem_example :
    (sealed_proof : List ℕ) × (sealed_inputs : List ℕ) × (generate_proof_handler request_to_vec
        response_from_slice completed
        (enclave ecies
          (λ text. true)
          payload_from_str
          circuit
          request_to_vec
          request_from_slice
          response_to_vec
          response_from_slice
          draws
          server)
        (40 ∷ 50 ∷ 6 ∷ [])
      ≡ ok (encrypted_proof sealed_proof sealed_inputs))
    × (open_with sealed_proof 50 ≡ some (3 ∷ 6 ∷ []))
    × (open_with sealed_inputs 50 ≡ some (1 ∷ 6 ∷ []))
unfolding compute_proof_for_circuit
generate_proof_lem_example =
    generate_proof_lem ecies (λ text. true) payload_from_str circuit request_to_vec
      request_from_slice response_to_vec response_from_slice draws server (50 ∷ []) (50 ∷ 6 ∷ [])
      (3 ∷ 6 ∷ []) (1 ∷ 6 ∷ [])
      (record { circuit_type = new_account; user_public_key = 50 ∷ []; circuit_inputs = 6 ∷ [] }) 0
      (key_pair 40) (key_pair 50) requests responses refl refl refl
