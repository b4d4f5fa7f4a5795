-- ===== src/Stake/Balance.antt =====
-- The balance of several token accounts, src/solana_stake.rs `parse_token_balance`.
use nexus_client.Prelude.{
  ℕ, ◌+◌, ◌^◌, ◌≡◌, ◌<◌, ◌↔◌, ◌∙◌, ap, none, some, List, [], ◌∷◌, arith, ok, ok_and_then-eq-ok,
}
use nexus_client.External.Serde.{Serde}
use nexus_client.Stake.Rpc.{rpc_error, account_amount, sum_accounts, parse_token_balance}

abbrev pub sum : List ℕ → ℕ
sum [] = 0
sum (n ∷ ns) = n + sum ns

module _ (S : Serde) where
  open S use {Value, get, as_str, as_array}

  -- The accounts have these amounts.
  abbrev pub Amounts : List Value → List ℕ → Type 0
  Amounts [] [] = Unit
  Amounts (acct ∷ accounts) (n ∷ ns) = (account_amount S acct ≡ ok n) × Amounts accounts ns
  Amounts _ _ = ⊥

  sum_accounts_sound :
      (accounts : List Value) (total n : ℕ)
      → total < 2 ^ 64
      → sum_accounts S accounts total ≡ ok n
      → (ns : List ℕ) × Amounts accounts ns × (n ≡ total + sum ns) × (n < 2 ^ 64)
  unfolding sum_accounts
  sum_accounts_sound [] total n h e = ([], tt, ground arith, ground arith)
  sum_accounts_sound (acct ∷ accounts) total n h e =
      let (raw, amount, rest) = ok_and_then-eq-ok (account_amount S acct) _ e in
      let fits : total + raw < 2 ^ 64 = ground arith in
      let (ns, amounts, same, bound) =
        sum_accounts_sound accounts (total + raw) n fits (ground arith) in
      (raw ∷ ns, (amount, amounts), omega arith, bound)

  sum_accounts_complete :
      (accounts : List Value) (ns : List ℕ) (total : ℕ)
      → Amounts accounts ns
      → total + sum ns < 2 ^ 64
      → sum_accounts S accounts total ≡ ok (total + sum ns)
  unfolding sum_accounts
  sum_accounts_complete [] [] total h k = ap ok (omega arith)
  sum_accounts_complete [] (n ∷ ns) total h k = absurd h
  sum_accounts_complete (acct ∷ accounts) [] total h k = absurd h
  sum_accounts_complete (acct ∷ accounts) (n ∷ ns) total (amount, h) k =
      rw amount (ground (arith, sum_accounts_complete accounts ns (total + n) h (omega arith)))

  -- For a response without an error whose `result.value` is an array of accounts: the balance is `n`
  -- exactly when every account has an amount, `n` is their sum, and the sum fits 64 bits.
  pub parse_token_balance_iff :
      (v result value : Value) (accounts : List Value) (n : ℕ)
      → rpc_error S v ≡ none
      → get v "result" ≡ some result
      → get result "value" ≡ some value
      → get value "amount" ≡ none
      → as_array value ≡ some accounts
      → (parse_token_balance S v ≡ ok n)
        ↔ ((ns : List ℕ) × Amounts accounts ns × (n ≡ sum ns) × (n < 2 ^ 64))
  unfolding parse_token_balance
  parse_token_balance_iff v result value accounts n clean r val no_amount arr =
      rw (clean, r, val, no_amount, arr)
        (
          λ e.
              let (ns, amounts, same, bound) = sum_accounts_sound accounts 0 n (omega arith) e in
              (ns, amounts, omega arith, bound),
          λ (ns, amounts, same, bound).
              sum_accounts_complete accounts ns 0 amounts (omega arith) ∙ ap ok (omega arith),
        )
