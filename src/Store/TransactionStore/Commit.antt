-- ===== src/Store/TransactionStore/Commit.antt =====
-- What a commit of the transactions does (store/src/store/transaction_store.cpp).
use molar_tracker.Base.{◌≡◌, List, false, ok}
use molar_tracker.Finance.Transaction.Domain.{DomainTransaction}
use molar_tracker.Store.BaseStore.{BaseStore, is_dirty}
use molar_tracker.Store.Loop.{Outcome, Passed, view}
use molar_tracker.Store.TransactionStore.Remap.{Row, Ready}

module _ {W : Type 0} where
  -- What is proved of a call that commits: it is a pass over the list, and a success leaves no changes.
  abbrev Commits :
      (BaseStore DomainTransaction → W → Outcome DomainTransaction W)
      → (List Row → W → Passed DomainTransaction W)
      → Type 0
  Commits call pass =
      (s : BaseStore DomainTransaction) (w : W)
      → Ready s.entries
      → (view (call s w) ≡ pass s.entries w)
        × ((call s w).0 ≡ ok tt → is_dirty (call s w).1 ≡ false)
