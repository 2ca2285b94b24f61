-- ===== src/Finance/Account.antt =====
-- Accounts (finance/src/finance/account/account.cpp and accounts.cpp).
use molar_tracker.Base.{
  ◌≡◌, Option, none, some, List, [], ◌∷◌, Bool, true, false, not, ◌&&◌, ◌||◌, if◌then◌else◌, any,
  filter_if, map,
}
use molar_tracker.Base.Int.{ℤ, eqb_ℤ}
use molar_tracker.Base.Text.{Text, text_eq}
use molar_tracker.Common.Currency.{Currency, currency_eq}
use molar_tracker.Common.Id.{invalid_id}
use molar_tracker.Filter.ExprNode.{Node, leaf}
pub mod External

pub data AccountKind : Type 0 where
  cash_kind security_kind external_kind : AccountKind

pub data AccountStatus : Type 0 where
  active closed : AccountStatus

-- `Account`; the variant of its details holds no data beside its kind.
pub record Account : Type 0 where
  pub id : ℤ
  pub status : AccountStatus
  pub name : Text
  pub currency : Currency
  pub kind : AccountKind

abbrev pub is_cash_kind : AccountKind → Bool
is_cash_kind AccountKind.cash_kind = true
is_cash_kind _ = false

abbrev pub is_external_kind : AccountKind → Bool
is_external_kind AccountKind.external_kind = true
is_external_kind _ = false

abbrev pub kind_eq : AccountKind → AccountKind → Bool
kind_eq AccountKind.cash_kind k = is_cash_kind k
kind_eq AccountKind.external_kind k = is_external_kind k
kind_eq AccountKind.security_kind AccountKind.security_kind = true
kind_eq AccountKind.security_kind _ = false

abbrev pub is_closed : AccountStatus → Bool
is_closed AccountStatus.closed = true
is_closed AccountStatus.active = false

-- `Account::isExternal`
abbrev pub is_external : Account → Bool
is_external a = is_external_kind a.kind

-- The predicates on accounts.
pub is_account_type : AccountKind → Node (Account → Bool)
is_account_type k = leaf (λ a. kind_eq a.kind k)

pub is_account_active : Node (Account → Bool)
is_account_active = leaf (λ a. not (is_closed a.status))

pub is_external_account : Node (Account → Bool)
is_external_account = leaf is_external

pub has_currency : Currency → Node (Account → Bool)
has_currency c = leaf (λ a. currency_eq a.currency c)

pub has_account_id : ℤ → Node (Account → Bool)
has_account_id i = leaf (λ a. eqb_ℤ a.id i)

pub has_name : Text → Node (Account → Bool)
has_name t = leaf (λ a. text_eq a.name t)

-- `Accounts`, an `IdObjectMap`: each account stands under its own identifier, so the map is the list
-- of its accounts in the order in which the hash table is gone through.
abbrev pub Accounts : Type 0
Accounts = List Account

unfoldable pub contains_account : Accounts → ℤ → Bool
contains_account accounts i = any (λ a. eqb_ℤ a.id i) accounts

pub find_account : Accounts → ℤ → Option Account
find_account [] i = none
find_account (a ∷ accounts) i = if eqb_ℤ a.id i then some a else find_account accounts i

same_truth : Bool → Bool → Bool
same_truth true b = b
same_truth false b = not b

unfoldable pub filter_external : Bool → Accounts → Accounts
unfolding same_truth
filter_external external accounts = filter_if (λ a. same_truth (is_external a) external) accounts

-- `Accounts::isExternal`, for each identifier of a set.
pub is_external_each : Accounts → List ℤ → List (Option Bool)
is_external_each accounts [] = []
is_external_each accounts (i ∷ is) =
    elim (find_account accounts i) [ none ↦ none | some a ↦ some (is_external a) ]
    ∷ is_external_each accounts is

-- The inner loop: the first external account.
unfoldable pub first_external : Accounts → Option ℤ
first_external [] = none
first_external (a ∷ accounts) = if is_external a then some a.id else first_external accounts

abbrev is_cash_account : ℤ → Account → Bool
is_cash_account i a = not (is_external a) && (is_cash_kind a.kind && eqb_ℤ a.id i)

-- The outer loop, over the accounts that are left.
unfoldable pub corresponding_from : Accounts → Accounts → ℤ → ℤ
unfolding first_external
corresponding_from all [] i = invalid_id
corresponding_from all (a ∷ accounts) i =
    let rest = corresponding_from all accounts i in
    if is_cash_account i a then elim (first_external all) [ none ↦ rest | some e ↦ e ] else rest

unfoldable pub get_corresponding_external_account_id : Accounts → ℤ → ℤ
unfolding corresponding_from
get_corresponding_external_account_id accounts i = corresponding_from accounts accounts i
