-- ===== src/Relayer/Worker/Safety.antt =====
-- What a worker of crates/shielder-relayer/src/relay/taskmaster.rs never does.
use zk_os_monorepo.Base.{
  ℕ, suc, ◌+◌, ◌≡◌, ◌⊎◌, Bool-cases, refl, true, false, Option, none, some, inl, inr, List, [], ◌∷◌,
  ◌++◌, arith,
}
use zk_os_monorepo.Calls.Types.{WithdrawCall}
use zk_os_monorepo.Calls.Dispatch.{IsNativeOf, IsErc20Of, withdraw_converts_once}
use zk_os_monorepo.Relayer.Trace.{
  RequestTrace, record_state, relay_completed, dry_run_completed, received_by_worker,
  set_relayer_address,
}
use zk_os_monorepo.Relayer.DryRun.{Manager, success, failure, should_dry_run_now}
use zk_os_monorepo.Relayer.Worker.{
  CallMode, dry_run, submit, ContractCall, withdraw_native, withdraw_erc20, Answer, accepted,
  rejected, TaskResult, dry_run_failed, relay_failed, ok, Task, Effect, contract_call, relay_task,
  submit_task, dry_run_task,
}

-- A contract call of a mode carries a withdrawal.
abbrev pub Carries : CallMode → WithdrawCall → ContractCall → Type 0
Carries mode c (withdraw_native m n) = (m ≡ mode) × IsNativeOf c n
Carries mode c (withdraw_erc20 m e value) = (m ≡ mode) × IsErc20Of c e × (value ≡ c.pocket_money)

contract_call_total :
    (mode : CallMode) (payload : WithdrawCall)
    → (call : ContractCall) × (contract_call mode payload ≡ some call) × Carries mode payload call
unfolding contract_call
contract_call_total mode payload = elim (withdraw_converts_once payload) [
  | inl (n, h) ↦ (withdraw_native mode n, ground (arith, h.token, h.converts), (refl, h))
  | inr (e, h) ↦ (
    withdraw_erc20 mode e payload.pocket_money,
    ground (arith, h.token, h.converts),
    (refl, h, refl),
  )
]

abbrev pub submissions : List ContractCall → ℕ
submissions [] = 0
submissions (withdraw_native submit _ ∷ cs) = suc (submissions cs)
submissions (withdraw_native dry_run _ ∷ cs) = submissions cs
submissions (withdraw_erc20 submit _ _ ∷ cs) = suc (submissions cs)
submissions (withdraw_erc20 dry_run _ _ ∷ cs) = submissions cs

submissions-submit :
    (payload : WithdrawCall) (call : ContractCall) (calls : List ContractCall)
    → Carries submit payload call
    → submissions (calls ++ call ∷ []) ≡ submissions calls + 1
submissions-submit payload (withdraw_native submit n) [] c = refl
submissions-submit payload (withdraw_native dry_run n) [] c = absurd (cc c.0)
submissions-submit payload (withdraw_erc20 submit e v) [] c = refl
submissions-submit payload (withdraw_erc20 dry_run e v) [] c = absurd (cc c.0)
submissions-submit payload call (withdraw_native submit n ∷ cs) c =
    omega (arith, submissions-submit payload call cs c)
submissions-submit payload call (withdraw_native dry_run n ∷ cs) c =
    submissions-submit payload call cs c
submissions-submit payload call (withdraw_erc20 submit e v ∷ cs) c =
    omega (arith, submissions-submit payload call cs c)
submissions-submit payload call (withdraw_erc20 dry_run e v ∷ cs) c =
    submissions-submit payload call cs c

submissions-dry_run :
    (payload : WithdrawCall) (call : ContractCall)
    → Carries dry_run payload call
    → submissions (call ∷ []) ≡ 0
submissions-dry_run payload (withdraw_native submit n) c = absurd (cc c.0)
submissions-dry_run payload (withdraw_native dry_run n) c = refl
submissions-dry_run payload (withdraw_erc20 submit e v) c = absurd (cc c.0)
submissions-dry_run payload (withdraw_erc20 dry_run e v) c = refl

-- What has been done when a result is reported.
abbrev pub Settled : Effect → TaskResult → Type 0
Settled e (dry_run_failed _) = (submissions e.calls ≡ 0) × (e.notice ≡ none) × (e.recharge ≡ false)
Settled e (relay_failed _) =
    (submissions e.calls ≡ 1) × (e.notice ≡ some failure) × (e.recharge ≡ true)
Settled e (ok _) = (submissions e.calls ≡ 1) × (e.notice ≡ some success) × (e.recharge ≡ true)

module _ (node : ContractCall → Answer) (payload : WithdrawCall) where
  abbrev pub Answered : CallMode → Answer → Type 0
  Answered mode answer = (call : ContractCall) × Carries mode payload call × (node call ≡ answer)

  -- The answer of the node to a call that carries the withdrawal is what is reported.
  abbrev pub Justified : TaskResult → Type 0
  Justified (dry_run_failed e) = Answered dry_run (rejected e)
  Justified (relay_failed e) = Answered submit (rejected e)
  Justified (ok tx_hash) = Answered submit (accepted tx_hash)

  abbrev Settles : Option Effect → Type 0
  Settles r = (e : Effect) × (r ≡ some e) × Settled e e.report.1 × Justified e.report.1

  submit_task-Settles_by :
      (trace : RequestTrace) (calls : List ContractCall) (call : ContractCall) (answer : Answer)
      → submissions calls ≡ 0
      → contract_call submit payload ≡ some call
      → Carries submit payload call
      → node call ≡ answer
      → Settles (submit_task node payload trace calls)
  unfolding submit_task
  submit_task-Settles_by trace calls call (accepted tx_hash) none_yet made carries answered = (
    record {
      calls = calls ++ call ∷ [];
      report = (record_state relay_completed trace, ok tx_hash);
      notice = some success;
      recharge = true;
    },
    rw (made, submit_task) (rw answered),
    (omega (arith, submissions-submit payload call calls carries), refl, refl),
    (call, carries, answered),
  )
  submit_task-Settles_by trace calls call (rejected e) none_yet made carries answered = (
    record {
      calls = calls ++ call ∷ [];
      report = (record_state relay_completed trace, relay_failed e);
      notice = some failure;
      recharge = true;
    },
    rw (made, submit_task) (rw answered),
    (omega (arith, submissions-submit payload call calls carries), refl, refl),
    (call, carries, answered),
  )

  submit_task-Settles :
      (trace : RequestTrace) (calls : List ContractCall)
      → submissions calls ≡ 0
      → Settles (submit_task node payload trace calls)
  submit_task-Settles trace calls none_yet =
      let (call, made, carries) = contract_call_total submit payload in
      submit_task-Settles_by trace calls call (node call) none_yet made carries refl

  -- Besides, whatever a submission needs, a passed dry run came before it.
  abbrev DrySettles : Option Effect → Type 0
  DrySettles r =
      (e : Effect) × (r ≡ some e)
      × Settled e e.report.1
      × Justified e.report.1
      × ((submissions e.calls ≡ 0) ⊎ ((hash : ℕ) × Answered dry_run (accepted hash)))

  dry_run_task-DrySettles :
      (trace : RequestTrace) (call : ContractCall) (answer : Answer)
      → contract_call dry_run payload ≡ some call
      → Carries dry_run payload call
      → node call ≡ answer
      → DrySettles (dry_run_task node payload trace)
  unfolding dry_run_task
  dry_run_task-DrySettles trace call (accepted hash) made carries answered =
      let (e, done, settled, justified) =
        submit_task-Settles (record_state dry_run_completed trace) (call ∷ [])
          (submissions-dry_run payload call carries) in
      (
        e,
        rw (made, dry_run_task) (rw answered done),
        settled,
        justified,
        inr (hash, (call, carries, answered)),
      )
  dry_run_task-DrySettles trace call (rejected e) made carries answered =
      let none_yet = submissions-dry_run payload call carries in
      (
        record {
          calls = call ∷ [];
          report = (record_state dry_run_completed trace, dry_run_failed e);
          notice = none;
          recharge = false;
        },
        rw (made, dry_run_task) (rw answered),
        (none_yet, refl, refl),
        (call, carries, answered),
        inl none_yet,
      )

-- For every task and every node a worker comes to a report without a panic, and: a withdrawal is
-- submitted once if the report is a success or a failed relay, never if it is a failed dry run; the
-- dry-run manager hears of exactly the submitted relays, by their result, and the recharge worker of
-- the same; and the reported result is the node's answer to a call that carries the task's
-- withdrawal. While the manager asks for dry runs nothing is submitted without one that passed.
pub relay_task_settles :
    (node : ContractCall → Answer) (worker_address : ℕ) (manager : Manager) (task : Task)
    → (e : Effect) × (relay_task node worker_address manager task ≡ some e)
      × Settled e e.report.1
      × Justified node task.payload e.report.1
      × ((should_dry_run_now manager ≡ false)
          ⊎ ((submissions e.calls ≡ 0)
              ⊎ ((hash : ℕ) × Answered node task.payload dry_run (accepted hash))))
unfolding relay_task
relay_task_settles node worker_address manager task =
    let trace =
      set_relayer_address worker_address (record_state received_by_worker task.request_trace) in
    elim (Bool-cases (should_dry_run_now manager)) [
      | inl dry ↦
          let (call, made, carries) = contract_call_total dry_run task.payload in
          let (e, done, settled, justified, before) =
            dry_run_task-DrySettles node task.payload trace call (node call) made carries refl in
          (e, rw dry done, settled, justified, inr before)
      | inr direct ↦
          let (e, done, settled, justified) = submit_task-Settles node task.payload trace [] refl in
          (e, rw direct done, settled, justified, inl direct)
    ]
