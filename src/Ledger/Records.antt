-- ===== src/Ledger/Records.antt =====
-- The payment ledger: records are never changed, and each wallet's numbers are filled in order.
use native.Mathlib.Decide.{dec_lt}
use maxim_contracts.Common.{
  none, Option, ℕ, ◌≡◌, ◌<◌, ◌⊎◌, inl, inr, refl, some, arith, sym, subst, saturating_add, u64_max,
  ◌∙◌,
}
use maxim_contracts.Platform.{Seeds, Runtime, Env}
use maxim_contracts.State.AgentWallet.{AgentWallet}
use maxim_contracts.State.PaymentRecord.{PaymentRecord}
use maxim_contracts.Chain.{account_at, derived_account, Chain, wallet, payment}
use maxim_contracts.Program.Register.{new_wallet}
use maxim_contracts.Program.Violation.{count_violation}
use maxim_contracts.Program.Dispatch.{Step, call, outside, Reach, here, next}
use maxim_contracts.Ledger.Slot.{
  Entry, WalletStep, charged, counted, activated, transferred, frozen, Slot, kept, config_made,
  config_rotated, config_capped, wallet_made, wallet_changed, wallet_closed, policy_made,
  policy_replaced, policy_counted, policy_closed, payment_made,
}
use maxim_contracts.Ledger.Execute.{execute-Slot}

Slot-payment :
    {rt : Runtime} {env : Env} {chain chain' : Chain} {k : ℕ} (r : PaymentRecord)
    → Slot rt env chain chain' k
    → chain.accounts k ≡ some (payment r)
    → chain'.accounts k ≡ some (payment r)
Slot-payment r (kept e) h = e ∙ h
Slot-payment r (config_made c v a b e) h = cc
Slot-payment r (config_rotated c a b s n e) h = cc
Slot-payment r (config_capped c a b s e) h = cc
Slot-payment r (wallet_made c i b n v s d e) h = cc
Slot-payment r (wallet_changed w w' b s e) h = cc
Slot-payment r (wallet_closed w b s i e) h = cc
Slot-payment r (policy_made p v f y e) h = cc
Slot-payment r (policy_replaced p q b f y e) h = cc
Slot-payment r (policy_counted p q b f y e) h = cc
Slot-payment r (policy_closed p b y e) h = cc
Slot-payment r (payment_made q v z e) h = cc

-- The steps from one chain to a later one.
pub data Steps (rt : Runtime) (chain : Chain) : Chain → Type 0 where
  done : Steps rt chain chain
  then : {middle last : Chain} → Steps rt chain middle → Step rt middle last → Steps rt chain last

pub Step-payment :
    {rt : Runtime} {chain chain' : Chain} (k : ℕ) (r : PaymentRecord)
    → Step rt chain chain'
    → chain.accounts k ≡ some (payment r)
    → chain'.accounts k ≡ some (payment r)
Step-payment {rt} {chain} k r (call env ix events e) h =
    Slot-payment r (execute-Slot rt env chain ix e k) h
Step-payment k r (outside tokens e) h = rw e h

derived_account-Step :
    {rt : Runtime} {chain chain' : Chain} (found : Option (ℕ × ℕ)) (r : PaymentRecord)
    → Step rt chain chain'
    → derived_account chain found ≡ some (payment r)
    → derived_account chain' found ≡ some (payment r)
derived_account-Step none r step h = cc
derived_account-Step (some (k, bump)) r step h = Step-payment k r step h

-- A record that is found under its seeds is found there after a step.
pub account_at-Step :
    {rt : Runtime} {chain chain' : Chain} (seeds : Seeds) (r : PaymentRecord)
    → Step rt chain chain'
    → account_at rt chain seeds ≡ some (payment r)
    → account_at rt chain' seeds ≡ some (payment r)
account_at-Step {rt} seeds r step h = derived_account-Step (rt.find_address seeds) r step h

-- A record that stands on the chain stands there unchanged after any sequence of steps: instructions
-- by anyone, and whatever happens to the token accounts.
pub records_immutable :
    {rt : Runtime} {chain chain' : Chain} (k : ℕ) (r : PaymentRecord)
    → Steps rt chain chain'
    → chain.accounts k ≡ some (payment r)
    → chain'.accounts k ≡ some (payment r)
records_immutable k r done h = h
records_immutable k r (then steps step) h = Step-payment k r step (records_immutable k r steps h)

-- Some record of the wallet at `k` with the number `i` stands at the address derived for it.
pub record HasEntry (rt : Runtime) (chain : Chain) (k i : ℕ) : Type 0 where
  pub entry : PaymentRecord
  pub at : account_at rt chain (Seeds.payment_record k i) ≡ some (payment entry)
  pub of_wallet : entry.agent_wallet ≡ k
  pub numbered : entry.sequence ≡ i

-- Every number below the wallet's next one has its record.
abbrev pub Filled : Runtime → Chain → ℕ → ℕ → Type 0
Filled rt chain k n = (i : ℕ) → i < n → HasEntry rt chain k i

pub HasEntry-keeps :
    {rt : Runtime} {chain chain' : Chain} (k i : ℕ)
    → Step rt chain chain'
    → HasEntry rt chain k i
    → HasEntry rt chain' k i
HasEntry-keeps k i step h = record {
  entry = h.entry;
  at = account_at-Step (Seeds.payment_record k i) h.entry step h.at;
  of_wallet = h.of_wallet;
  numbered = h.numbered;
}

-- How the number of a wallet comes about: it is new, it is as before, or it went up by one (up to
-- `u64::MAX`) over the record with the number before.
abbrev Numbering : Runtime → Chain → Chain → ℕ → ℕ → Type 0
Numbering rt chain chain' k n' =
    (n' ≡ 0)
    ⊎ ((w : AgentWallet) × (chain.accounts k ≡ some (wallet w))
        × ((n' ≡ w.payment_sequence)
            ⊎ ((n' ≡ saturating_add u64_max w.payment_sequence 1)
                × HasEntry rt chain' k w.payment_sequence)))

Entry-HasEntry :
    {rt : Runtime} {chain : Chain} {k n settled : ℕ}
    → Entry rt chain k n settled
    → HasEntry rt chain k n
Entry-HasEntry e = record {
  entry = e.entry;
  at = e.at;
  of_wallet = e.of_wallet;
  numbered = e.numbered;
}

WalletStep-Numbering :
    {rt : Runtime} {env : Env} {chain chain' : Chain} {k : ℕ} (w w' : AgentWallet)
    → chain.accounts k ≡ some (wallet w)
    → WalletStep rt env chain chain' k w w'
    → Numbering rt chain chain' k w'.payment_sequence
unfolding count_violation
WalletStep-Numbering w w' b (charged a n s c e) = inr (w, b, inr (c.sequence, Entry-HasEntry e))
WalletStep-Numbering w w' b (counted s e r) = inr (w, b, inr (rw e, Entry-HasEntry r))
WalletStep-Numbering w w' b (activated f s e) = inr (w, b, inl (rw e))
WalletStep-Numbering w w' b (transferred o s n e) = inr (w, b, inl (rw e))
WalletStep-Numbering w w' b (frozen f a e) = inr (w, b, inl (rw e))

Slot-Numbering :
    {rt : Runtime} {env : Env} {chain chain' : Chain} {k : ℕ} (w' : AgentWallet)
    → Slot rt env chain chain' k
    → chain'.accounts k ≡ some (wallet w')
    → Numbering rt chain chain' k w'.payment_sequence
unfolding new_wallet
Slot-Numbering w' (kept e) h = inr (w', sym e ∙ h, inl refl)
Slot-Numbering w' (config_made c v a b e) h = cc
Slot-Numbering w' (config_rotated c a b s n e) h = cc
Slot-Numbering w' (config_capped c a b s e) h = cc
Slot-Numbering w' (wallet_made c i b n v s d e) h = inl (ground arith)
Slot-Numbering {rt} {env} {chain} {chain'} {k} w' (wallet_changed w v b s e) h =
    let same : v ≡ w' = cc in
    subst (λ (u : AgentWallet). Numbering rt chain chain' k u.payment_sequence) same
      (WalletStep-Numbering w v b s)
Slot-Numbering w' (wallet_closed w b s i e) h = cc
Slot-Numbering w' (policy_made p v f y e) h = cc
Slot-Numbering w' (policy_replaced p q b f y e) h = cc
Slot-Numbering w' (policy_counted p q b f y e) h = cc
Slot-Numbering w' (policy_closed p b y e) h = cc
Slot-Numbering w' (payment_made q v z e) h = cc

Numbering-Filled :
    {rt : Runtime} {chain chain' : Chain} (k n' : ℕ)
    → Step rt chain chain'
    → ((w : AgentWallet)
        → chain.accounts k ≡ some (wallet w)
        → Filled rt chain k w.payment_sequence)
    → Numbering rt chain chain' k n'
    → Filled rt chain' k n'
Numbering-Filled k n' step before (inl e) i lt = absurd (omega arith)
Numbering-Filled k n' step before (inr (w, b, inl e)) i lt =
    HasEntry-keeps k i step (before w b i (rw (← e) lt))
Numbering-Filled {rt} {chain} {chain'} k n' step before (inr (w, b, inr (e, made))) i lt =
    elim (dec_lt i w.payment_sequence) [
      | yes old ↦ HasEntry-keeps k i step (before w b i old)
      | no new ↦
          let same : i ≡ w.payment_sequence = ground arith in
          subst (HasEntry rt chain' k) (sym same) made
    ]

Step-Filled :
    {rt : Runtime} {chain chain' : Chain} (k : ℕ)
    → Step rt chain chain'
    → ((w : AgentWallet)
        → chain.accounts k ≡ some (wallet w)
        → Filled rt chain k w.payment_sequence)
    → (w' : AgentWallet) → chain'.accounts k ≡ some (wallet w')
    → Filled rt chain' k w'.payment_sequence
Step-Filled {rt} {chain} {chain'} k (call env ix events e) before w' h =
    Numbering-Filled k w'.payment_sequence (call env ix events e) before
      (Slot-Numbering w' (execute-Slot rt env chain ix e k) h)
Step-Filled {rt} {chain} {chain'} k (outside tokens e) before w' h =
    Numbering-Filled k w'.payment_sequence (outside tokens e) before (inr (w', rw e at h, inl refl))

-- On every chain that the program can lead to, each wallet has a record for every number below its
-- next one, at the address derived for wallet and number; no number is skipped.
pub ledger_contiguous :
    {rt : Runtime} {chain : Chain} (k : ℕ) (w : AgentWallet) (i : ℕ)
    → Reach rt chain
    → chain.accounts k ≡ some (wallet w)
    → i < w.payment_sequence
    → HasEntry rt chain k i
ledger_contiguous k w i (here fresh) h lt = cc (fresh.empty k)
ledger_contiguous k w i (next reach step) h lt =
    Step-Filled k step (λ v b j below. ledger_contiguous k v j reach b below) w h i lt
