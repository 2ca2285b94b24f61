-- ===== src/Common/Exception.antt =====
-- The C++ exceptions that src/common throws, as values.
use molar_tracker.Base.{◌≡◌, Result, ok}

pub data Exception : Type 0 where
  -- `CurrencyMismatchException`
  currency_mismatch : Exception
  -- `std::domain_error`, `std::invalid_argument`, `std::overflow_error`, `std::logic_error`,
  -- `std::runtime_error`
  domain_error invalid_argument overflow_error logic_error runtime_error : Exception
  -- `NotYetImplementedException`, `WatchlistStoreException`, `CrudException` and other exceptions of the
  -- database
  not_yet_implemented watchlist_store crud_exception : Exception

-- What a call that may throw ends with.
abbrev pub Throws {ℓ} : Type ℓ → Type ℓ
Throws A = Result Exception A

-- Two calls that end alike return the same value.
pub ok_eq : {E A : Type 0} {a b : A} → Path (Result E A) (ok a) (ok b) → a ≡ b
ok_eq h = cc
