-- ===== src/Settings/EnumParam.antt =====
-- A parameter that is one of some constants (settings/include/settings/params/enum_param.tpp).
use molar_tracker.Base.{Option, none, some, List, [], Bool, if◌then◌else◌, any}
use molar_tracker.Settings.Param
use molar_tracker.Settings.Param.{ParamCore, Notice}
use molar_tracker.Settings.NumericParam.{ParamError}

-- `set`; `values` are those that the enumeration declares.
unfoldable pub set_choice {ℓ} :
    {E : Type ℓ}
    → (E → E → Bool)
    → List E
    → E
    → ParamCore E
    → Option ParamError × ParamCore E × List (Notice E)
set_choice equals values value p =
    let c = Param.set equals value p in
    if any (λ v. equals v value) values
    then (none, c.0, c.1)
    else (some ParamError.invalid_param_value, p, [])
