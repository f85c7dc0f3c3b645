-- ===== src/Ledger/Volume.antt =====
-- The audit of a wallet: its lifetime volume against the payment records on the ledger.
use Prim.Native.Nat.{zero, suc}
use maxim_contracts.Common.{
  ℕ, ◌≡◌, ◌≤◌, ◌<◌, ◌⊎◌, inl, inr, refl, Option, none, some, arith, sym, subst, ◌∙◌, ap, ap₂,
  saturating_add, u64_max,
}
use maxim_contracts.Platform.{Seeds, Runtime, Env}
use maxim_contracts.State.AgentWallet.{AgentWallet}
use maxim_contracts.Chain.{account_at, Chain, Account, wallet}
use maxim_contracts.Program.Register.{new_wallet}
use maxim_contracts.Program.Violation.{count_violation}
use maxim_contracts.Program.Dispatch.{Step, call, outside, Reach, here, next}
use maxim_contracts.Ledger.Slot.{
  settled_amount, Entry, WalletStep, charged, counted, activated, transferred, frozen, Slot, kept,
  config_made, config_rotated, config_capped, wallet_made, wallet_changed, wallet_closed,
  policy_made, policy_replaced, policy_counted, policy_closed, payment_made,
}
use maxim_contracts.Ledger.Execute.{execute-Slot}
use maxim_contracts.Ledger.Records.{HasEntry, account_at-Step, ledger_contiguous}
use maxim_contracts.Ledger.Wallets.{wallets-IsWellFormed}

-- What an account adds to the volume: a payment record its amount, unless it is of a violation.
abbrev pub settled_at : Option Account → ℕ
settled_at none = 0
settled_at (some (Account.config c)) = 0
settled_at (some (Account.wallet w)) = 0
settled_at (some (Account.policy p)) = 0
settled_at (some (Account.payment r)) = settled_amount r

-- The sum of what the records of the wallet at `k` with numbers below `n` settled, up to
-- `u64::MAX`, read from the ledger alone.
unfoldable pub settled_volume : Runtime → Chain → ℕ → ℕ → ℕ
settled_volume rt chain k zero = 0
settled_volume rt chain k (suc i) =
    saturating_add u64_max (settled_volume rt chain k i)
      (settled_at (account_at rt chain (Seeds.payment_record k i)))

settled_volume-Step :
    {rt : Runtime} {chain chain' : Chain} (k n : ℕ)
    → Step rt chain chain'
    → ((i : ℕ) → i < n → HasEntry rt chain k i)
    → settled_volume rt chain' k n ≡ settled_volume rt chain k n
unfolding settled_volume
settled_volume-Step k zero step filled = refl
settled_volume-Step {rt} {chain} {chain'} k (suc n) step filled =
    let last = filled n (omega arith) in
    let after = account_at-Step (Seeds.payment_record k n) last.entry step last.at in
    ap₂ (saturating_add u64_max) (settled_volume-Step k n step (λ i lt. filled i (omega arith)))
      (ap settled_at (after ∙ sym last.at))

-- How number and volume come about: both new, both as before, or the number went up by one over a
-- record that settles what the volume grew by.
abbrev Audited : Runtime → Chain → Chain → ℕ → AgentWallet → Type 0
Audited rt chain chain' k w' =
    ((w'.payment_sequence ≡ 0) × (w'.total_volume ≡ 0))
    ⊎ ((w : AgentWallet) × (chain.accounts k ≡ some (wallet w))
        × (((w'.payment_sequence ≡ w.payment_sequence) × (w'.total_volume ≡ w.total_volume))
            ⊎ ((w'.payment_sequence ≡ saturating_add u64_max w.payment_sequence 1)
                × ((a : ℕ) × (w'.total_volume ≡ saturating_add u64_max w.total_volume a)
                    × Entry rt chain' k w.payment_sequence a))))

WalletStep-Audited :
    {rt : Runtime} {env : Env} {chain chain' : Chain} {k : ℕ} (w w' : AgentWallet)
    → chain.accounts k ≡ some (wallet w)
    → w.total_volume ≤ u64_max
    → WalletStep rt env chain chain' k w w'
    → Audited rt chain chain' k w'
unfolding count_violation
WalletStep-Audited w w' b fits (charged a n s c e) = inr (w, b, inr (c.sequence, (a, c.volume, e)))
WalletStep-Audited w w' b fits (counted s e r) = inr (w, b, inr (rw e, (0, rw e (ground arith), r)))
WalletStep-Audited w w' b fits (activated f s e) = inr (w, b, inl (rw e, rw e))
WalletStep-Audited w w' b fits (transferred o s n e) = inr (w, b, inl (rw e, rw e))
WalletStep-Audited w w' b fits (frozen f a e) = inr (w, b, inl (rw e, rw e))

Slot-Audited :
    {rt : Runtime} {env : Env} {chain chain' : Chain} {k : ℕ} (w' : AgentWallet)
    → ((w : AgentWallet) → chain.accounts k ≡ some (wallet w) → w.total_volume ≤ u64_max)
    → Slot rt env chain chain' k
    → chain'.accounts k ≡ some (wallet w')
    → Audited rt chain chain' k w'
unfolding new_wallet
Slot-Audited w' fits (kept e) h = inr (w', sym e ∙ h, inl (refl, refl))
Slot-Audited w' fits (config_made c v a b e) h = cc
Slot-Audited w' fits (config_rotated c a b s n e) h = cc
Slot-Audited w' fits (config_capped c a b s e) h = cc
Slot-Audited w' fits (wallet_made c i b n v s d e) h = inl (ground arith, ground arith)
Slot-Audited {rt} {env} {chain} {chain'} {k} w' fits (wallet_changed w v b s e) h =
    let same : v ≡ w' = cc in
    subst (Audited rt chain chain' k) same (WalletStep-Audited w v b (fits w b) s)
Slot-Audited w' fits (wallet_closed w b s i e) h = cc
Slot-Audited w' fits (policy_made p v f y e) h = cc
Slot-Audited w' fits (policy_replaced p q b f y e) h = cc
Slot-Audited w' fits (policy_counted p q b f y e) h = cc
Slot-Audited w' fits (policy_closed p b y e) h = cc
Slot-Audited w' fits (payment_made q v z e) h = cc

-- The record of a new number settles what the volume grew by.
settled_volume-suc :
    {rt : Runtime} {chain : Chain} (k n a : ℕ)
    → Entry rt chain k n a
    → settled_volume rt chain k (suc n) ≡ saturating_add u64_max (settled_volume rt chain k n) a
unfolding settled_volume
settled_volume-suc {rt} {chain} k n a e =
    ap (saturating_add u64_max (settled_volume rt chain k n)) (ap settled_at e.at ∙ e.settles)

Audited-Step :
    {rt : Runtime} {chain chain' : Chain} (k : ℕ) (w' : AgentWallet)
    → Step rt chain chain'
    → ((w : AgentWallet) (i : ℕ)
        → chain.accounts k ≡ some (wallet w)
        → i < w.payment_sequence
        → HasEntry rt chain k i)
    → ((w : AgentWallet)
        → chain.accounts k ≡ some (wallet w)
        → w.payment_sequence < u64_max
        → w.total_volume ≡ settled_volume rt chain k w.payment_sequence)
    → w'.payment_sequence < u64_max
    → Audited rt chain chain' k w'
    → w'.total_volume ≡ settled_volume rt chain' k w'.payment_sequence
unfolding settled_volume
Audited-Step k w' step filled before lt (inl (e, z)) = rw (e, z)
Audited-Step k w' step filled before lt (inr (w, b, inl (e, z))) =
    rw (e, z)
      (before w b (rw (← e) lt)
        ∙ sym (settled_volume-Step k w.payment_sequence step (λ i below. filled w i b below)))
Audited-Step {rt} {chain} {chain'} k w' step filled before lt (inr (w, b, inr (e, (a, z, r)))) =
    let below : w.payment_sequence < u64_max = ground arith in
    let up : w'.payment_sequence ≡ suc w.payment_sequence = ground arith in
    rw (z, up)
      (ap (λ (v : ℕ). saturating_add u64_max v a)
          (before w b below
            ∙ sym (settled_volume-Step k w.payment_sequence step (λ i lt'. filled w i b lt')))
        ∙ sym (settled_volume-suc k w.payment_sequence a r))

-- On every chain that the program can lead to, the lifetime volume of a wallet whose number is below
-- `u64::MAX` is the sum, up to `u64::MAX`, of the amounts of its settled payment records, as anyone
-- can read them from the ledger at the addresses derived for the numbers used.
pub volume_audit :
    {rt : Runtime} {chain : Chain} (k : ℕ) (w : AgentWallet)
    → Reach rt chain
    → chain.accounts k ≡ some (wallet w)
    → w.payment_sequence < u64_max
    → w.total_volume ≡ settled_volume rt chain k w.payment_sequence
volume_audit k w (here fresh) h lt = cc (fresh.empty k)
volume_audit {rt} k w (next {chain = chain} reach (call env ix events e)) h lt =
    Audited-Step k w (call env ix events e) (λ v i b below. ledger_contiguous k v i reach b below)
      (λ v b below. volume_audit k v reach b below) lt
      (Slot-Audited w (λ v b. (wallets-IsWellFormed k v reach b).volume_fits)
        (execute-Slot rt env chain ix e k) h)
volume_audit k w (next reach (outside tokens e)) h lt =
    Audited-Step k w (outside tokens e) (λ v i b below. ledger_contiguous k v i reach b below)
      (λ v b below. volume_audit k v reach b below) lt (inr (w, rw e at h, inl (refl, refl)))
