-- ===== src/Common/Version/Order.antt =====
-- The order of versions (common/src/common/version.cpp).
use Prim.Native.Nat.{Ordering}
use molar_tracker.Base.{◌≡◌, true, ◌↔◌, arith}
use molar_tracker.Common.Version.{SemVer, compare_versions, equal_versions}

abbrev pub flipped : Ordering → Ordering
flipped Ordering.lt = Ordering.gt
flipped Ordering.eq = Ordering.eq
flipped Ordering.gt = Ordering.lt

-- The order of versions is a strict total order up to `==`: comparing the other way round gives the
-- opposite result, two versions compare as equal exactly if `==` says so, a version below a second
-- that is below a third is below the third, and equal versions compare alike with any other.
pub compare_versions-order :
    (a b c : SemVer)
    → (compare_versions b a ≡ flipped (compare_versions a b))
      × ((compare_versions a b ≡ Ordering.eq) ↔ (equal_versions a b ≡ true))
      × (compare_versions a b ≡ Ordering.lt
          → compare_versions b c ≡ Ordering.lt
          → compare_versions a c ≡ Ordering.lt)
      × (equal_versions a b ≡ true → compare_versions a c ≡ compare_versions b c)
unfolding compare_versions equal_versions
compare_versions-order a b c =
    (ground arith, ground arith, (λ h k. ground arith), λ h. ground arith)
