-- ===== src/Common/Id.antt =====
-- Identifiers of database rows (config/include/config/details/strong_id.tpp).
use molar_tracker.Base.{Bool, not}
use molar_tracker.Base.Int.{ℤ, negsuc, eqb_ℤ}

-- `StrongId::invalid()`, -1.
abbrev pub invalid_id : ℤ
invalid_id = negsuc 0

-- `StrongId::isValid`
abbrev pub is_valid_id : ℤ → Bool
is_valid_id i = not (eqb_ℤ i invalid_id)
