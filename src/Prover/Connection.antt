-- ===== src/Prover/Connection.antt =====
-- How the loop of tee/crates/shielder-prover-tee/src/server.rs serves a connection.
use mathlib.Core.List.{append-nil, append_assoc}
use zk_os_monorepo.Base.{
  refl, none, if◌then◌else◌, true, sym, Bool-cases, ◌⊎◌, ℕ, zero, suc, ◌<◌, ◌≡◌, ◌≢◌, Bool, Option,
  some, List, [], ◌∷◌, ◌++◌, length, arith, inl, inr, Option-cases,
}
use zk_os_monorepo.Outcome.{Outcome, ok, err, panic, Outcome-cases}
use zk_os_monorepo.Prover.{
  ping, tee_public_key, generate_proof, pong, public_key_response, encrypted_proof, Payload,
  CircuitType, Request, Response, Incoming, frame, broken, handle_request,
}
use zk_os_monorepo.Prover.Server.{
  encrypted_proof_answer, public_key_answer, Ecies, SerializableCircuit, Server, Draws, answer,
  do_handle_client,
}

module _ (ecies : Ecies) (is_utf8 : List ℕ → Bool) (payload_from_str : List ℕ → Option Payload)
    (circuit : CircuitType → SerializableCircuit) (accepts : List (List ℕ) → Bool)
    (request_from_slice : List ℕ → Option Request) (response_to_vec : Response → Option (List ℕ))
    (draws : ℕ → Draws) (server : Server) where
  -- The response that is due to a request, when some frames have been written before: a pong, the key
  -- with its attestation, or the encrypted proof, as far as they can be made.
  abbrev pub due : ℕ → Request → Option Response
  due written ping = some pong
  due written tee_public_key = elim (server.attestation server.public_key) [
    | none ↦ none
    | some document ↦ some (public_key_response (server.to_hex server.public_key) document)
  ]
  due written (generate_proof payload) =
      elim (encrypted_proof_answer ecies is_utf8 payload_from_str circuit server (draws written)
        payload) [
          | ok sealed ↦ some (encrypted_proof sealed.0 sealed.1)
          | err e ↦ none
          | panic ↦ none
        ]

  abbrev if_ok : {A E : Type 0} → Outcome E A → Option A
  if_ok (ok a) = some a
  if_ok (err e) = none
  if_ok panic = none

  due_lem :
      (written : ℕ) (req : Request)
      → due written req
        ≡ if_ok (answer ecies is_utf8 payload_from_str circuit server (draws written) req)
  unfolding answer public_key_answer
  due_lem written ping = refl
  due_lem written tee_public_key = elim (Option-cases (server.attestation server.public_key)) [
    | inl e ↦ ground (arith, e)
    | inr (document, e) ↦ ground (arith, e)
  ]
  due_lem written (generate_proof payload) =
      elim (Outcome-cases (
        encrypted_proof_answer ecies is_utf8 payload_from_str circuit server (draws written)
          payload)) [
            | inl (sealed, e) ↦ ground (arith, e)
            | inr (inl (failed, e)) ↦ ground (arith, e)
            | inr (inr e) ↦ ground (arith, e)
          ]

  -- The reply that is due to a frame, if it holds a request and the response can be encoded.
  abbrev pub reply_to : ℕ → List ℕ → Option (List ℕ)
  reply_to written asked = elim (request_from_slice asked) [
    | none ↦ none
    | some req ↦ elim (due written req) [ none ↦ none | some res ↦ response_to_vec res ]
  ]

  -- The replies that are due to the frames to read: one for each, in order, up to the first that has
  -- none, is broken, or whose reply the socket does not take.
  abbrev pub replies : List (List ℕ) → List Incoming → List (List ℕ)
  replies write [] = []
  replies write (broken ∷ read) = []
  replies write (frame asked ∷ read) = elim (reply_to (length write) asked) [
    | none ↦ []
    | some reply ↦ if accepts write then reply ∷ replies (write ++ reply ∷ []) read else []
  ]

  handled_lem :
      (asked : List ℕ) (read : List Incoming) (write : List (List ℕ))
      → (let handled =
            handle_request accepts request_from_slice response_to_vec
              (answer ecies is_utf8 payload_from_str circuit server (draws (length write)))
              (record { read = frame asked ∷ read; write = write }) in
          ((reply : List ℕ) × (reply_to (length write) asked ≡ some reply)
            × (accepts write ≡ true)
            × (handled ≡ (record { read = read; write = write ++ reply ∷ [] }, ok tt)))
          ⊎ ((handled.0.write ≡ write)
              × (handled.1 ≢ ok tt)
              × (replies write (frame asked ∷ read) ≡ [])))
  unfolding handle_request
  handled_lem asked read write = elim (Option-cases (request_from_slice asked)) [
    | inl e ↦ inr (ground (arith, e), (λ h. ground (arith, e, h)), ground (arith, e))
    | inr (req, e) ↦
        let answered =
          answer ecies is_utf8 payload_from_str circuit server (draws (length write)) req in
        let d = due_lem (length write) req in
        elim (Outcome-cases answered) [
          | inr (inl (failed, a)) ↦
              inr (ground (arith, e, a, d), (λ h. ground (arith, e, a, h)), ground (arith, e, a, d))
          | inr (inr a) ↦
              inr (ground (arith, e, a, d), (λ h. ground (arith, e, a, h)), ground (arith, e, a, d))
          | inl (res, a) ↦ elim (Option-cases (response_to_vec res)) [
            | inl s ↦ inr (
              ground (arith, e, a, s, d),
              (λ h. ground (arith, e, a, s, h)),
              ground (arith, e, a, s, d),
            )
            | inr (bytes, s) ↦ elim (Bool-cases (accepts write)) [
              | inl t ↦ inl (bytes, ground (arith, e, a, s, d), t, ground (arith, e, a, s, t, d))
              | inr f ↦ inr (
                ground (arith, e, a, s, f, d),
                (λ h. ground (arith, e, a, s, f, h)),
                ground (arith, e, a, s, f, d),
              )
            ]
          ]
        ]
  ]

  -- With fuel for one more request than there are frames to read, the loop ends by an error or a
  -- panic, and what it has written then are exactly the replies that are due: the server answers each
  -- frame by the request that it holds, with a pong, its key and attestation, or the encrypted proof, in
  -- order, up to the first frame that it cannot read or has no answer to, or whose answer cannot be
  -- encoded or written.
  pub do_handle_client_lem :
      (fuel : ℕ) (read : List Incoming) (write : List (List ℕ))
      → length read < fuel
      → (let ended =
            do_handle_client ecies is_utf8 payload_from_str circuit accepts request_from_slice
              response_to_vec draws server fuel
              (record { read = read; write = write }) in
          (ended.0.write ≡ write ++ replies write read) × (ended.1 ≢ ok tt))
  unfolding do_handle_client
  do_handle_client_lem zero read write few = absurd (omega arith)
  do_handle_client_lem (suc fuel) [] write few =
      unfold handle_request in (sym (append-nil write), λ z. ground (arith, z))
  do_handle_client_lem (suc fuel) (broken ∷ read) write few =
      unfold handle_request in (sym (append-nil write), λ z. ground (arith, z))
  do_handle_client_lem (suc fuel) (frame asked ∷ read) write few =
      elim (handled_lem asked read write) [
        | inl (reply, due, room, h) ↦
            let (w, n) = do_handle_client_lem fuel read (write ++ reply ∷ []) (omega arith) in
            (
              ground (
                arith,
                h,
                due,
                room,
                w,
                append_assoc write (reply ∷ []) (replies (write ++ reply ∷ []) read),
              ),
              λ z. n (ground (arith, h, z)),
            )
        | inr (same, ended, nothing) ↦
            let handled =
              handle_request accepts request_from_slice response_to_vec
                (answer ecies is_utf8 payload_from_str circuit server (draws (length write)))
                (record { read = frame asked ∷ read; write = write }) in
            elim (Outcome-cases handled.1) [
              | inl (unit, q) ↦ absurd (ended q)
              | inr (inl (error, q)) ↦
                  (ground (arith, q, same, nothing, append-nil write), λ z. ground (arith, q, z))
              | inr (inr q) ↦
                  (ground (arith, q, same, nothing, append-nil write), λ z. ground (arith, q, z))
            ]
      ]
