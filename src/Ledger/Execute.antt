-- ===== src/Ledger/Execute.antt =====
-- The refinement theorem: what the instructions may do to an account.
use maxim_contracts.Common.{ℕ, ◌≡◌, List, ap, Option, true, false}
use maxim_contracts.Errors.{ok}
use maxim_contracts.Events.{Event}
use maxim_contracts.Platform.{Runtime, Env}
use maxim_contracts.Chain.{Chain, Account}
use maxim_contracts.Program.Dispatch.{Instruction, execute}
use maxim_contracts.Program.Status.{
  deactivate_agent, reactivate_agent, freeze_agent, unfreeze_agent,
}
use maxim_contracts.Program.Withdraw.Effect.{withdraw_funds_accounts, withdraw_all_funds}
use maxim_contracts.Ledger.Slot.{Slot, kept}
use maxim_contracts.Ledger.Refinement.{
  init_protocol-Slot, rotate_protocol_admin-Slot, update_protocol_config-Slot, register_agent-Slot,
  set_spend_policy-Slot, set_active-Slot, transfer_ownership-Slot, set_frozen-Slot,
}
use maxim_contracts.Ledger.Payments.{
  settle_payment-Slot, record_policy_violation-Slot, close_agent-Slot,
}

-- Every instruction that succeeds does to every account one of the changes that `Slot` lists, with
-- the signature that is listed with it: accounts of the program are made at vacant addresses only,
-- keep their kind, and wallets, policies and configurations change or vanish only for their owners and
-- admins; the flag that freezes a wallet changes only for an admin.
pub execute-Slot :
    (rt : Runtime) (env : Env) (chain : Chain) (instruction : Instruction) {chain' : Chain}
    {events : List Event}
    → execute rt env chain instruction ≡ ok (chain', events)
    → (j : ℕ) → Slot rt env chain chain' j
unfolding execute deactivate_agent reactivate_agent freeze_agent unfreeze_agent
execute-Slot rt env chain (Instruction.init_protocol ctx admin) h =
    init_protocol-Slot rt env chain ctx admin h
execute-Slot rt env chain (Instruction.rotate_protocol_admin ctx admin) h =
    rotate_protocol_admin-Slot rt env chain ctx admin h
execute-Slot rt env chain (Instruction.update_protocol_config ctx cap) h =
    update_protocol_config-Slot rt env chain ctx cap h
execute-Slot rt env chain (Instruction.register_agent ctx id) h =
    register_agent-Slot rt env chain ctx id h
execute-Slot rt env chain (Instruction.set_spend_policy ctx params) h =
    set_spend_policy-Slot rt env chain ctx params h
execute-Slot rt env chain (Instruction.settle_payment ctx sequence params) h =
    settle_payment-Slot rt env chain ctx sequence params h
execute-Slot rt env chain (Instruction.record_policy_violation ctx sequence params reason) h =
    record_policy_violation-Slot rt env chain ctx sequence params reason h
execute-Slot rt env chain (Instruction.deactivate_agent ctx) h =
    set_active-Slot rt env chain false ctx h
execute-Slot rt env chain (Instruction.reactivate_agent ctx) h =
    set_active-Slot rt env chain true ctx h
execute-Slot rt env chain (Instruction.freeze_agent ctx) h = set_frozen-Slot rt env chain true ctx h
execute-Slot rt env chain (Instruction.unfreeze_agent ctx) h =
    set_frozen-Slot rt env chain false ctx h
execute-Slot rt env chain (Instruction.withdraw_funds ctx amount) h = λ j.
    kept (ap (λ (f : ℕ → Option Account). f j) (withdraw_funds_accounts rt env chain ctx amount h))
execute-Slot rt env chain (Instruction.transfer_ownership ctx owner) h =
    transfer_ownership-Slot rt env chain ctx owner h
execute-Slot rt env chain (Instruction.close_agent ctx) h = close_agent-Slot rt env chain ctx h
execute-Slot rt env chain (Instruction.withdraw_all ctx) h = λ j.
    let (amount, h') = withdraw_all_funds rt env chain ctx h in
    kept (ap (λ (f : ℕ → Option Account). f j) (withdraw_funds_accounts rt env chain ctx amount h'))
