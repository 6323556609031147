-- ===== src/Prover/Proxy.antt =====
-- tee/crates/shielder-prover-server/src/handlers and src/error.rs: the web server passes each request
-- on to the enclave over a connection of its own. The pool of tasks is a parameter.
use zk_os_monorepo.Base.{ℕ, Bool, true, false, Option, List}
use zk_os_monorepo.Outcome.{Outcome, ok, err, panic}
use zk_os_monorepo.Prover.{
  Request, ping, tee_public_key, generate_proof, Response, VsockError, io, Incoming, request,
}

pub data ProverServerError : Type 0 where
  io_error task_pool join_handle : ProverServerError
  proving_server : VsockError → ProverServerError

-- The status of an error's response.
unfoldable pub status : ProverServerError → ℕ
status io_error = 500
status task_pool = 504
status (proving_server e) = 500
status join_handle = 500

-- Whether the pool takes a task, and whether the task ends in the pool's time.
pub data Scheduling : Type 0 where
  not_scheduled timed_out completed : Scheduling

-- Whether the connection to the enclave is made, and what the enclave answers to what is written.
pub record Tee : Type 0 where
  pub connects : Bool
  pub accepts : List (List ℕ) → Bool
  pub peer : List (List ℕ) → List Incoming

module _ (request_to_vec : Request → Option (List ℕ))
    (response_from_slice : List ℕ → Option Response) where
  -- `request` of src/handlers/mod.rs.
  unfoldable pub tee_request : Tee → Request → Outcome VsockError Response
  tee_request tee req = elim tee.connects [
    | false ↦ err io
    | true ↦ request tee.accepts request_to_vec response_from_slice tee.peer req
  ]

  -- A task of the pool and what it ends with; a panic of the task is an error of its handle.
  unfoldable pub in_pool :
      Scheduling → Outcome VsockError Response → Outcome ProverServerError Response
  in_pool not_scheduled result = err task_pool
  in_pool timed_out result = err task_pool
  in_pool completed (ok response) = ok response
  in_pool completed (err e) = err (proving_server e)
  in_pool completed panic = err join_handle

  unfoldable pub health_handler : Scheduling → Tee → Outcome ProverServerError Response
  unfolding in_pool
  health_handler scheduled tee = in_pool scheduled (tee_request tee ping)

  unfoldable pub tee_public_key_handler : Scheduling → Tee → Outcome ProverServerError Response
  unfolding in_pool
  tee_public_key_handler scheduled tee = in_pool scheduled (tee_request tee tee_public_key)

  unfoldable pub generate_proof_handler :
      Scheduling → Tee → List ℕ → Outcome ProverServerError Response
  unfolding in_pool
  generate_proof_handler scheduled tee payload =
      in_pool scheduled (tee_request tee (generate_proof payload))
