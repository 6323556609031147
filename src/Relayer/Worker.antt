-- ===== src/Relayer/Worker.antt =====
-- crates/shielder-relayer/src/relay/taskmaster.rs: what a worker does with one task. The node is a
-- parameter that answers a call; the answer to the requester is the reported pair. What a worker
-- tells the shared dry-run manager and the recharge worker is part of its result.
pub mod Safety
use zk_os_monorepo.Base.{
  ℕ, Bool, true, false, Option, none, some, List, [], ◌∷◌, ◌++◌, if◌then◌else◌,
}
use zk_os_monorepo.Token.{Token, native, erc20}
use zk_os_monorepo.Calls.Types.{
  WithdrawCall, WithdrawNativeCall, WithdrawErc20Call, withdraw_native_try_from,
  withdraw_erc20_try_from,
}
use zk_os_monorepo.Relayer.DryRun.{Manager, Notice, success, failure, should_dry_run_now}
use zk_os_monorepo.Relayer.Trace.{
  RequestTrace, record_state, set_relayer_address, queued_for_relay, received_by_worker,
  dry_run_completed, relay_completed,
}

-- The type parameter of the contract calls.
pub data CallMode : Type 0 where
  dry_run submit : CallMode

-- A call that a worker sends to the node; an ERC20 withdrawal carries the pocket money as value.
pub data ContractCall : Type 0 where
  withdraw_native : CallMode → WithdrawNativeCall → ContractCall
  withdraw_erc20 : CallMode → WithdrawErc20Call → ℕ → ContractCall

-- The node's answer: a transaction hash (of no use after a dry run), or an error.
pub data Answer : Type 0 where
  accepted rejected : ℕ → Answer

pub data TaskResult : Type 0 where
  dry_run_failed relay_failed ok : ℕ → TaskResult

pub record Task : Type 0 where
  pub payload : WithdrawCall
  pub request_trace : RequestTrace

pub record Effect : Type 0 where
  pub calls : List ContractCall
  pub report : RequestTrace × TaskResult
  pub notice : Option Notice
  -- Whether the worker reports itself for a recharge.
  pub recharge : Bool

-- `register_new_task`, for a queue that is open.
unfoldable pub new_task : WithdrawCall → RequestTrace → Task
new_task payload request_trace = record {
  payload = payload;
  request_trace = record_state queued_for_relay request_trace;
}

-- `none` stands for the panic of `try_into().unwrap()`.
unfoldable pub contract_call : CallMode → WithdrawCall → Option ContractCall
contract_call mode payload = elim payload.token [
  | native ↦ elim (withdraw_native_try_from payload) [
    | none ↦ none
    | some call ↦ some (withdraw_native mode call)
  ]
  | erc20 _ ↦ elim (withdraw_erc20_try_from payload) [
    | none ↦ none
    | some call ↦ some (withdraw_erc20 mode call payload.pocket_money)
  ]
]

module _ (node : ContractCall → Answer) where
  -- From the submission to the end of the loop's body.
  unfoldable pub submit_task : WithdrawCall → RequestTrace → List ContractCall → Option Effect
  submit_task payload request_trace calls = elim (contract_call submit payload) [
    | none ↦ none
    | some call ↦
        let trace = record_state relay_completed request_trace in
        elim (node call) [
          | accepted tx_hash ↦ some (record {
            calls = calls ++ call ∷ [];
            report = (trace, ok tx_hash);
            notice = some success;
            recharge = true;
          })
          | rejected e ↦ some (record {
            calls = calls ++ call ∷ [];
            report = (trace, relay_failed e);
            notice = some failure;
            recharge = true;
          })
        ]
  ]

  -- A dry run, and the rest if it passes.
  unfoldable pub dry_run_task : WithdrawCall → RequestTrace → Option Effect
  unfolding submit_task
  dry_run_task payload request_trace = elim (contract_call dry_run payload) [
    | none ↦ none
    | some call ↦
        let trace = record_state dry_run_completed request_trace in
        elim (node call) [
          | rejected e ↦ some (record {
            calls = call ∷ [];
            report = (trace, dry_run_failed e);
            notice = none;
            recharge = false;
          })
          | accepted _ ↦ submit_task payload trace (call ∷ [])
        ]
  ]

  -- The body of the loop of `relay_worker`.
  unfoldable pub relay_task : ℕ → Manager → Task → Option Effect
  unfolding dry_run_task submit_task
  relay_task worker_address manager task =
      let trace =
        set_relayer_address worker_address (record_state received_by_worker task.request_trace) in
      if should_dry_run_now manager
      then dry_run_task task.payload trace
      else submit_task task.payload trace []
