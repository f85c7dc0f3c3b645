-- ===== src/Program/Dispatch.antt =====
-- `#[program] mod maxim_protocol` of programs/maxim_protocol/src/lib.rs: the instructions that can
-- be called, and what may happen to the chain between them.
use maxim_contracts.Common.{ℕ, ◌≡◌, List, none}
use maxim_contracts.Errors.{ok}
use maxim_contracts.Events.{Event}
use maxim_contracts.Platform.{Tokens, Runtime, Env}
use maxim_contracts.Chain.{Chain, Outcome}
use maxim_contracts.Program.Params.{SetSpendPolicyParams, SettlePaymentParams}
use maxim_contracts.Program.Config.{InitProtocol, AdminContext}
use maxim_contracts.Program.Register.{RegisterAgent}
use maxim_contracts.Program.Policy.{SetSpendPolicy}
use maxim_contracts.Program.Settle.{SettlePayment}
use maxim_contracts.Program.Violation.{RecordPolicyViolation}
use maxim_contracts.Program.Status.{OwnerContext, ProtocolManageAgent, CloseAgent}
use maxim_contracts.Program.Withdraw.{WithdrawFunds}
use maxim_contracts.Program.Config
use maxim_contracts.Program.Register
use maxim_contracts.Program.Policy
use maxim_contracts.Program.Settle
use maxim_contracts.Program.Violation
use maxim_contracts.Program.Status
use maxim_contracts.Program.Withdraw

pub data Instruction : Type 0 where
  init_protocol : InitProtocol → ℕ → Instruction
  rotate_protocol_admin : AdminContext → ℕ → Instruction
  update_protocol_config : AdminContext → ℕ → Instruction
  register_agent : RegisterAgent → List ℕ → Instruction
  set_spend_policy : SetSpendPolicy → SetSpendPolicyParams → Instruction
  settle_payment : SettlePayment → ℕ → SettlePaymentParams → Instruction
  record_policy_violation : RecordPolicyViolation → ℕ → SettlePaymentParams → ℕ → Instruction
  deactivate_agent : OwnerContext → Instruction
  reactivate_agent : OwnerContext → Instruction
  freeze_agent : ProtocolManageAgent → Instruction
  unfreeze_agent : ProtocolManageAgent → Instruction
  withdraw_funds : WithdrawFunds → ℕ → Instruction
  transfer_ownership : OwnerContext → ℕ → Instruction
  close_agent : CloseAgent → Instruction
  withdraw_all : WithdrawFunds → Instruction

-- One instruction, by name.
unfoldable pub execute : Runtime → Env → Chain → Instruction → Outcome
execute rt env chain (init_protocol ctx admin) = Config.init_protocol rt env chain ctx admin
execute rt env chain (rotate_protocol_admin ctx admin) =
    Config.rotate_protocol_admin rt env chain ctx admin
execute rt env chain (update_protocol_config ctx cap) =
    Config.update_protocol_config rt env chain ctx cap
execute rt env chain (register_agent ctx id) = Register.register_agent rt env chain ctx id
execute rt env chain (set_spend_policy ctx params) = Policy.set_spend_policy rt env chain ctx params
execute rt env chain (settle_payment ctx sequence params) =
    Settle.settle_payment rt env chain ctx sequence params
execute rt env chain (record_policy_violation ctx sequence params reason) =
    Violation.record_policy_violation rt env chain ctx sequence params reason
execute rt env chain (deactivate_agent ctx) = Status.deactivate_agent env chain ctx
execute rt env chain (reactivate_agent ctx) = Status.reactivate_agent env chain ctx
execute rt env chain (freeze_agent ctx) = Status.freeze_agent rt env chain ctx
execute rt env chain (unfreeze_agent ctx) = Status.unfreeze_agent rt env chain ctx
execute rt env chain (withdraw_funds ctx amount) = Withdraw.withdraw_funds rt env chain ctx amount
execute rt env chain (transfer_ownership ctx owner) = Status.transfer_ownership env chain ctx owner
execute rt env chain (close_agent ctx) = Status.close_agent rt env chain ctx
execute rt env chain (withdraw_all ctx) = Withdraw.withdraw_all rt env chain ctx

-- A step of the chain: an instruction that succeeds, by whichever keys have signed, or what other
-- programs do to the token accounts.
pub data Step (rt : Runtime) (chain chain' : Chain) : Type 0 where
  call :
      (env : Env) (instruction : Instruction) (events : List Event)
      → execute rt env chain instruction ≡ ok (chain', events)
      → Step rt chain chain'
  outside : (tokens : Tokens) → chain' ≡ record chain { tokens = tokens } → Step rt chain chain'

-- A chain on which the program has just been deployed.
pub record IsFresh (chain : Chain) : Type 0 where
  pub empty : (k : ℕ) → chain.accounts k ≡ none

-- The chains that a fresh one leads to. An instruction that fails is undone and is no step.
pub data Reach (rt : Runtime) : Chain → Type 0 where
  here : {chain : Chain} → IsFresh chain → Reach rt chain
  next : {chain chain' : Chain} → Reach rt chain → Step rt chain chain' → Reach rt chain'
