-- ===== src/Finance/Account/External.antt =====
-- The external account that is found for a cash account (finance/src/finance/account/accounts.cpp).
use molar_tracker.Base.{◌≡◌, some, [], ◌∷◌, true, false, arith}
use molar_tracker.Base.Int.{ℤ, eqb_ℤ-refl}
use molar_tracker.Common.Id.{is_valid_id}
use molar_tracker.Finance.Account.{
  Accounts, contains_account, filter_external, first_external, corresponding_from,
  get_corresponding_external_account_id,
}

contains_account-first_external :
    (accounts : Accounts) (e : ℤ)
    → first_external accounts ≡ some e
    → contains_account (filter_external true accounts) e ≡ true
unfolding first_external contains_account filter_external
contains_account-first_external [] e h = cc
contains_account-first_external (a ∷ accounts) e h =
    ground (arith, contains_account-first_external accounts e, eqb_ℤ-refl e)

valid_corresponding :
    (all accounts : Accounts) (i : ℤ)
    → is_valid_id (corresponding_from all accounts i) ≡ true
    → (first_external all ≡ some (corresponding_from all accounts i))
      × (contains_account (filter_external false accounts) i ≡ true)
unfolding corresponding_from contains_account filter_external
valid_corresponding all [] i h = cc
valid_corresponding all (a ∷ accounts) i h = ground (arith, valid_corresponding all accounts i)

-- If the external account found for an account is valid, it is one of the external accounts, and the
-- account is one of the others.
pub get_corresponding_external_account_id-contains :
    (accounts : Accounts) (i : ℤ)
    → is_valid_id (get_corresponding_external_account_id accounts i) ≡ true
    → (contains_account
          (filter_external true accounts)
          (get_corresponding_external_account_id accounts i)
        ≡ true)
      × (contains_account (filter_external false accounts) i ≡ true)
unfolding get_corresponding_external_account_id
get_corresponding_external_account_id-contains accounts i h =
    let v = valid_corresponding accounts accounts i h in
    (contains_account-first_external accounts _ v.0, v.1)
