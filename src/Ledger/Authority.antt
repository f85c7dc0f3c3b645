-- ===== src/Ledger/Authority.antt =====
-- Whose signature a change needs.
use maxim_contracts.Common.{
  ℕ, ◌≡◌, ◌≢◌, ◌⊎◌, inl, inr, Bool, false, List, some, sym, subst, ◌∙◌, ap,
}
use maxim_contracts.Errors.{ok}
use maxim_contracts.Events.{Event}
use maxim_contracts.Platform.{Runtime, Env}
use maxim_contracts.State.ProtocolConfig.{ProtocolConfig, program_version}
use maxim_contracts.State.AgentWallet.{AgentWallet}
use maxim_contracts.Chain.{Chain, wallet, config}
use maxim_contracts.Program.Dispatch.{Instruction, execute, call, outside, Reach, here, next}
use maxim_contracts.Ledger.Slot.{
  AdminSigned, WalletStep, charged, counted, activated, transferred, frozen, Slot, kept,
  config_made, config_rotated, config_capped, wallet_made, wallet_changed, wallet_closed,
  policy_made, policy_replaced, policy_counted, policy_closed, payment_made,
}
use maxim_contracts.Program.Status.{OwnerContext, transfer_ownership}
use maxim_contracts.Program.Status.Effect.{transfer_ownership_lem}
use maxim_contracts.Ledger.Refinement.{set_at}
use maxim_contracts.Ledger.Execute.{execute-Slot}

-- A wallet without its owner's signature: untouched, or frozen or unfrozen by a signing admin.
abbrev pub Untouched : Env → Chain → Chain → ℕ → AgentWallet → Type 0
Untouched env chain chain' k w =
    (chain'.accounts k ≡ some (wallet w))
    ⊎ (AdminSigned env chain
        × ((flag : Bool) × (chain'.accounts k ≡ some (wallet (record w { is_frozen = flag })))))

WalletStep-Untouched :
    {rt : Runtime} {env : Env} {chain chain' : Chain} {k : ℕ} (w w' : AgentWallet)
    → WalletStep rt env chain chain' k w w'
    → env.is_signer w.owner ≡ false
    → chain'.accounts k ≡ some (wallet w')
    → Untouched env chain chain' k w
WalletStep-Untouched w w' (charged amount now s c e) unsigned h = cc
WalletStep-Untouched w w' (counted s e r) unsigned h = cc
WalletStep-Untouched w w' (activated f s e) unsigned h = cc
WalletStep-Untouched w w' (transferred o s n e) unsigned h = cc
WalletStep-Untouched w w' (frozen f a e) unsigned h = inr (a, (f, cc))

Slot-Untouched :
    {rt : Runtime} {env : Env} {chain chain' : Chain} {k : ℕ} (w : AgentWallet)
    → Slot rt env chain chain' k
    → chain.accounts k ≡ some (wallet w)
    → env.is_signer w.owner ≡ false
    → Untouched env chain chain' k w
Slot-Untouched w (kept e) h unsigned = inl (e ∙ h)
Slot-Untouched w (config_made c v a b e) h unsigned = cc
Slot-Untouched w (config_rotated c a b s n e) h unsigned = cc
Slot-Untouched w (config_capped c a b s e) h unsigned = cc
Slot-Untouched w (wallet_made c i b n v s d e) h unsigned = cc
Slot-Untouched {rt} {env} {chain} {chain'} {k} w (wallet_changed v v' b s e) h unsigned =
    let same : v ≡ w = cc in
    subst (Untouched env chain chain' k) same (WalletStep-Untouched v v' s (rw same unsigned) e)
Slot-Untouched w (wallet_closed v b s i e) h unsigned =
    let same : v ≡ w = cc in cc (ap (λ (u : AgentWallet). u.owner) same)
Slot-Untouched w (policy_made p v f y e) h unsigned = cc
Slot-Untouched w (policy_replaced p q b f y e) h unsigned = cc
Slot-Untouched w (policy_counted p q b f y e) h unsigned = cc
Slot-Untouched w (policy_closed p b y e) h unsigned = cc
Slot-Untouched w (payment_made q v z e) h unsigned = cc

-- An instruction that the owner of a wallet has not signed leaves the wallet as it is, but for the
-- freeze flag, which only a signing admin of a stored configuration can set.
pub wallet_authority :
    (rt : Runtime) (env : Env) (chain : Chain) (instruction : Instruction) {chain' : Chain}
    {events : List Event} (k : ℕ) (w : AgentWallet)
    → execute rt env chain instruction ≡ ok (chain', events)
    → chain.accounts k ≡ some (wallet w)
    → env.is_signer w.owner ≡ false
    → Untouched env chain chain' k w
wallet_authority rt env chain instruction k w done stored unsigned =
    Slot-Untouched w (execute-Slot rt env chain instruction done k) stored unsigned

Slot-config :
    {rt : Runtime} {env : Env} {chain chain' : Chain} {k : ℕ} (c : ProtocolConfig)
    → Slot rt env chain chain' k
    → chain.accounts k ≡ some (config c)
    → env.is_signer c.admin ≡ false
    → chain'.accounts k ≡ some (config c)
Slot-config c (kept e) h unsigned = e ∙ h
Slot-config c (config_made d v a b e) h unsigned = cc
Slot-config c (config_rotated d a b s n e) h unsigned =
    let same : d ≡ c = cc in cc (ap (λ (u : ProtocolConfig). u.admin) same)
Slot-config c (config_capped d a b s e) h unsigned =
    let same : d ≡ c = cc in cc (ap (λ (u : ProtocolConfig). u.admin) same)
Slot-config c (wallet_made x i b n v s d e) h unsigned = cc
Slot-config c (wallet_changed v v' b s e) h unsigned = cc
Slot-config c (wallet_closed v b s i e) h unsigned = cc
Slot-config c (policy_made p v f y e) h unsigned = cc
Slot-config c (policy_replaced p q b f y e) h unsigned = cc
Slot-config c (policy_counted p q b f y e) h unsigned = cc
Slot-config c (policy_closed p b y e) h unsigned = cc
Slot-config c (payment_made q v z e) h unsigned = cc

-- An instruction that the admin of a stored configuration has not signed leaves it as it is.
pub config_authority :
    (rt : Runtime) (env : Env) (chain : Chain) (instruction : Instruction) {chain' : Chain}
    {events : List Event} (k : ℕ) (c : ProtocolConfig)
    → execute rt env chain instruction ≡ ok (chain', events)
    → chain.accounts k ≡ some (config c)
    → env.is_signer c.admin ≡ false
    → chain'.accounts k ≡ some (config c)
config_authority rt env chain instruction k c done stored unsigned =
    Slot-config c (execute-Slot rt env chain instruction done k) stored unsigned

-- A configuration that is in use: a real admin and the version of this program.
abbrev pub IsLive : ProtocolConfig → Type 0
IsLive c = (c.admin ≢ 0) × (c.version ≡ program_version)

Slot-IsLive :
    {rt : Runtime} {env : Env} {chain chain' : Chain} {k : ℕ} (c' : ProtocolConfig)
    → Slot rt env chain chain' k
    → ((c : ProtocolConfig) → chain.accounts k ≡ some (config c) → IsLive c)
    → chain'.accounts k ≡ some (config c')
    → IsLive c'
Slot-IsLive c' (kept e) before h = before c' (sym e ∙ h)
Slot-IsLive c' (config_made d v a b e) before h = let same : d ≡ c' = cc in subst IsLive same (a, b)
Slot-IsLive c' (config_rotated d a b s n e) before h =
    let live = before d b in
    let same : record d { admin = a } ≡ c' = cc in subst IsLive same (n, live.1)
Slot-IsLive c' (config_capped d a b s e) before h =
    let live = before d b in
    let same : record d { max_single_payment_usdc = a } ≡ c' = cc in subst IsLive same live
Slot-IsLive c' (wallet_made x i b n v s d e) before h = cc
Slot-IsLive c' (wallet_changed v v' b s e) before h = cc
Slot-IsLive c' (wallet_closed v b s i e) before h = cc
Slot-IsLive c' (policy_made p v f y e) before h = cc
Slot-IsLive c' (policy_replaced p q b f y e) before h = cc
Slot-IsLive c' (policy_counted p q b f y e) before h = cc
Slot-IsLive c' (policy_closed p b y e) before h = cc
Slot-IsLive c' (payment_made q v z e) before h = cc

-- On every chain that the program can lead to, every configuration has an admin that is not the
-- default key, and the version of this program.
pub configs-IsLive :
    {rt : Runtime} {chain : Chain} (k : ℕ) (c : ProtocolConfig)
    → Reach rt chain
    → chain.accounts k ≡ some (config c)
    → IsLive c
configs-IsLive k c (here fresh) h = cc (fresh.empty k)
configs-IsLive {rt} k c (next {chain = chain} reach (call env ix events e)) h =
    Slot-IsLive c (execute-Slot rt env chain ix e k) (λ d b. configs-IsLive k d reach b) h
configs-IsLive k c (next reach (outside tokens e)) h = configs-IsLive k c reach (rw e at h)

-- After a transfer of ownership, whatever the keys that sign, an instruction without the new owner's
-- signature leaves the wallet as it is, but for the freeze flag, which only a signing admin can set.
pub transfer_ownership_revokes :
    (rt : Runtime) (env later : Env) (chain : Chain) (ctx : OwnerContext) (owner : ℕ)
    {moved_chain last : Chain} {events events' : List Event} (instruction : Instruction)
    → transfer_ownership env chain ctx owner ≡ ok (moved_chain, events)
    → later.is_signer owner ≡ false
    → execute rt later moved_chain instruction ≡ ok (last, events')
    → (w : AgentWallet) × (chain.accounts ctx.agent_wallet ≡ some (wallet w))
      × Untouched later moved_chain last ctx.agent_wallet (record w { owner = owner })
transfer_ownership_revokes rt env later chain ctx owner {moved_chain} instruction moved unsigned
      done =
    let (w, o, _, _, e) = transfer_ownership_lem env chain ctx owner moved in
    (
      w,
      o.stored,
      wallet_authority rt later moved_chain instruction ctx.agent_wallet
          (record w { owner = owner }) done (set_at chain moved_chain _ _ e) unsigned,
    )
