-- ===== src/Examples/Local.antt =====
-- A runtime that runs: addresses by an injective code of the seeds, and a token program that checks
-- the signer, the holder and the balance. It shows that the laws of `Platform.Laws` can hold.
use maxim_contracts.Common.{
  ◌&&◌, length, ℕ, zero, suc, ◌+◌, ◌-◌, ◌*◌, ◌≡◌, ◌≢◌, ◌≤◌, ◌⊎◌, refl, Bool, true, false, List, [],
  ◌∷◌, Option, none, some, inl, inr, arith, ◌==◌, leb, update, if◌then◌else◌, ap, ap₂, Bool-cases,
  u64_max, Option-cases,
}
use maxim_contracts.Errors.{
  Exec, ok, ◌>>=◌, ◌>>◌, ensure, account, account_not_signer, account_already_in_use, external,
}
use maxim_contracts.Platform.{
  Seeds, protocol_config, agent_wallet, spend_policy, payment_record, TokenAccount, Tokens,
  TransferCall, Runtime,
}
use maxim_contracts.Platform.Laws.{Transferred, TransferLaws, AddressLaws, balance}
use maxim_contracts.Chain.{as_token, is_address}

pair : ℕ → ℕ → ℕ
pair zero y = 2 * y + 1
pair (suc x) y = 2 * pair x y

pair-pos : (x y : ℕ) → 1 ≤ pair x y
unfolding pair
pair-pos zero y = omega arith
pair-pos (suc x) y = omega (arith, pair-pos x y)

pair-injective : (x x' y y' : ℕ) → pair x y ≡ pair x' y' → (x ≡ x') × (y ≡ y')
unfolding pair
pair-injective zero zero y y' h = (refl, omega arith)
pair-injective zero (suc x') y y' h = absurd (omega arith)
pair-injective (suc x) zero y y' h = absurd (omega arith)
pair-injective (suc x) (suc x') y y' h =
    let (a, b) = pair-injective x x' y y' (omega arith) in (ap suc a, b)

code_list : List ℕ → ℕ
unfolding pair
code_list [] = 0
code_list (x ∷ xs) = pair x (code_list xs)

code_list-injective : (xs ys : List ℕ) → code_list xs ≡ code_list ys → xs ≡ ys
unfolding code_list
code_list-injective [] [] h = refl
code_list-injective [] (y ∷ ys) h = absurd (omega (arith, pair-pos y (code_list ys)))
code_list-injective (x ∷ xs) [] h = absurd (omega (arith, pair-pos x (code_list xs)))
code_list-injective (x ∷ xs) (y ∷ ys) h =
    let (a, b) = pair-injective x y (code_list xs) (code_list ys) h in
    ap₂ ◌∷◌ a (code_list-injective xs ys b)

code_seeds : Seeds → ℕ
unfolding code_list pair
code_seeds protocol_config = 4
code_seeds (agent_wallet id) = 4 * code_list id + 5
code_seeds (spend_policy w) = 4 * w + 6
code_seeds (payment_record w n) = 4 * pair n w + 7

code_seeds-injective : (s s' : Seeds) → code_seeds s ≡ code_seeds s' → s ≡ s'
unfolding code_seeds
code_seeds-injective protocol_config protocol_config h = refl
code_seeds-injective protocol_config (agent_wallet x) h = absurd (omega arith)
code_seeds-injective protocol_config (spend_policy x) h = absurd (omega arith)
code_seeds-injective protocol_config (payment_record x y) h = absurd (omega arith)
code_seeds-injective (agent_wallet a) protocol_config h = absurd (omega arith)
code_seeds-injective (agent_wallet a) (agent_wallet x) h =
    ap agent_wallet (code_list-injective a x (omega arith))
code_seeds-injective (agent_wallet a) (spend_policy x) h = absurd (omega arith)
code_seeds-injective (agent_wallet a) (payment_record x y) h = absurd (omega arith)
code_seeds-injective (spend_policy a) protocol_config h = absurd (omega arith)
code_seeds-injective (spend_policy a) (agent_wallet x) h = absurd (omega arith)
code_seeds-injective (spend_policy a) (spend_policy x) h = ap spend_policy (omega arith)
code_seeds-injective (spend_policy a) (payment_record x y) h = absurd (omega arith)
code_seeds-injective (payment_record a b) protocol_config h = absurd (omega arith)
code_seeds-injective (payment_record a b) (agent_wallet x) h = absurd (omega arith)
code_seeds-injective (payment_record a b) (spend_policy x) h = absurd (omega arith)
code_seeds-injective (payment_record a b) (payment_record x y) h =
    let (p, q) = pair-injective b y a x (omega arith) in ap₂ payment_record q p

abbrev local_bump : ℕ
local_bump = 255

-- Every seed is at most 32 bytes.
abbrev fits_seed : Seeds → Bool
fits_seed (agent_wallet id) = leb (length id) 32
fits_seed protocol_config = true
fits_seed (spend_policy w) = true
fits_seed (payment_record w n) = true

local_create : Seeds → ℕ → Option ℕ
unfolding code_seeds
local_create s b = if fits_seed s && b == local_bump then some (code_seeds s) else none

local_find : Seeds → Option (ℕ × ℕ)
unfolding code_seeds
local_find s = if fits_seed s then some (code_seeds s, local_bump) else none

local_transfer : Tokens → TransferCall → Exec Tokens
unfolding local_create
local_transfer t c = do
  ensure (is_address (local_create c.signer_seeds c.signer_bump) c.authority)
      (account account_not_signer)
  source ← as_token (t.accounts c.from)
  ensure (source.owner == c.authority) (external 4)
  ensure (leb c.amount source.amount) (external 1)
  target ← as_token (t.accounts c.to)
  ensure (target.mint == source.mint) (external 3)
  ensure (leb (target.amount + c.amount) u64_max) (external 14)
  let source' : TokenAccount = record source { amount = source.amount - c.amount }
  let target' : TokenAccount = record target { amount = target.amount + c.amount }
  let moved : Tokens = record t {
    accounts = update (update t.accounts c.from (some source')) c.to (some target');
  }
  ok (if c.from == c.to then t else moved)

abbrev is_free : Option TokenAccount → Bool
is_free none = true
is_free (some t) = false

local_create_associated : Tokens → ℕ → ℕ → ℕ → Exec Tokens
unfolding pair
local_create_associated t payer authority mint = do
  let k = pair mint authority
  ensure (is_free (t.accounts k)) (account account_already_in_use)
  let made : TokenAccount = record { mint = mint; owner = authority; amount = 0 }
  ok (record t { accounts = update t.accounts k (some made) })

-- The accounts are all paid for.
unfoldable pub local : Runtime
unfolding code_seeds pair local_create local_find local_create_associated local_transfer
local = record {
  find_address = local_find;
  create_address = local_create;
  associated_address = λ authority mint. pair mint authority;
  allocate = λ payer k space. ok tt;
  create_associated = local_create_associated;
  transfer = local_transfer;
}

pub local-AddressLaws : AddressLaws local
unfolding local
local-AddressLaws = record {
  canonical = λ s k b h. ground arith;
  seed_limit = λ id b h. ground arith;
  collision_free = λ s s' b b' k h h'. code_seeds-injective s s' (ground arith);
}

module _ (t : Tokens) (c : TransferCall) (t' : Tokens) (done : local_transfer t c ≡ ok t') where
  source_found : (s : TokenAccount) × (t.accounts c.from ≡ some s)
  unfolding local_transfer
  source_found = ground arith

  target_found : (s : TokenAccount) × (t.accounts c.to ≡ some s)
  unfolding local_transfer
  target_found = let (s, found) = source_found in ground arith

  signer_checked : local_create c.signer_seeds c.signer_bump ≡ some c.authority
  unfolding local_transfer
  signer_checked = elim (Option-cases (local_create c.signer_seeds c.signer_bump)) [
    | inl missing ↦ absurd (ground arith)
    | inr (a, found) ↦ ground arith
  ]

  local_ends :
      (s d : TokenAccount)
      → t.accounts c.from ≡ some s
      → t.accounts c.to ≡ some d
      → ((c.from ≢ c.to)
          × (balance t' c.from + c.amount ≡ balance t c.from)
          × (balance t' c.to ≡ balance t c.to + c.amount))
        ⊎ ((c.from ≡ c.to) × (balance t' c.to ≡ balance t c.to))
  unfolding local_transfer update
  local_ends s d found target = elim (Bool-cases (c.from == c.to)) [
    | inl same ↦ inr (ground arith, ground arith)
    | inr apart ↦ inl (ground arith, ground arith, ground arith)
  ]

  local_others : (k : ℕ) → (k ≡ c.from) ⊎ (k ≡ c.to) ⊎ (t'.accounts k ≡ t.accounts k)
  unfolding local_transfer update
  local_others k = let (s, found) = source_found in let (d, target) = target_found in ground arith

  funds_checked : c.amount ≤ balance t c.from
  unfolding local_transfer
  funds_checked = let (s, found) = source_found in ground arith

  local_moved : Transferred local t c t'
  unfolding local
  local_moved =
      let (s, found) = source_found in
      let (d, target) = target_found in
      record {
        signed = signer_checked;
        funded = funds_checked;
        moved = record { ends = local_ends s d found target; others = local_others };
      }

pub local-TransferLaws : TransferLaws local
unfolding local
local-TransferLaws = record { transfer_lem = local_moved }
