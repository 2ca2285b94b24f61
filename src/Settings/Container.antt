-- ===== src/Settings/Container.antt =====
-- The settings as a whole and saving them (settings/include/settings/params/param_container_mixin.tpp
-- and settings/src/settings/settings.cpp).
use molar_tracker.Base.{
  ℕ, suc, ◌≡◌, refl, List, [], ◌∷◌, Bool, true, false, ◌||◌, if◌then◌else◌, Option, some,
}
use molar_tracker.Base.Text.{Text}

-- `IParam`: a parameter or a container of parameters, whatever its state; `to_json` is the text that
-- is written for it.
pub record Param : Type 1 where
  pub State : Type 0
  pub state : State
  pub is_dirty : State → Bool
  pub commit : State → State
  pub reset_to_default : State → State
  pub to_json : State → Text
  pub is_dirty-commit : (s : State) → is_dirty (commit s) ≡ false

-- The parameters of a container, in the order of `forEachParam`.
abbrev pub Container : Type 1
Container = List Param

unfoldable pub is_dirty_any : Container → Bool
is_dirty_any [] = false
is_dirty_any (p ∷ ps) = p.is_dirty p.state || is_dirty_any ps

unfoldable pub commit_each : Container → Container
commit_each [] = []
commit_each (p ∷ ps) = record p { state = p.commit p.state } ∷ commit_each ps

unfoldable pub reset_each : Container → Container
reset_each [] = []
reset_each (p ∷ ps) = record p { state = p.reset_to_default p.state } ∷ reset_each ps

unfoldable pub to_json_each : Container → List Text
to_json_each [] = []
to_json_each (p ∷ ps) = p.to_json p.state ∷ to_json_each ps

-- `Settings`, with the contents of the file and how often subscribers were told that it was saved.
pub record Settings : Type 1 where
  pub params : Container
  pub file : Option (List Text)
  pub saved : ℕ

-- What becomes of the file in `_toJson`: it cannot be opened, `dump` throws after it was opened and
-- emptied, the stream takes only a part of the text, or all of it.
pub data Writing : Type 0 where
  not_opened : Writing
  dump_threw : Writing
  partly : List Text → Writing
  completely : Writing

-- `_toJson`, with whether it returned.
abbrev pub write_file : Writing → Settings → (Bool × Settings)
write_file not_opened s = (true, s)
write_file dump_threw s = (false, record s { file = some [] })
write_file (partly ts) s = (true, record s { file = some ts })
write_file completely s = (true, record s { file = some (to_json_each s.params) })

abbrev as_saved : Settings → Settings
as_saved s = record s { params = commit_each s.params; saved = suc s.saved }

-- `save`, with whether it returned; a failure of the stream is not looked at.
unfoldable pub save : Writing → Settings → (Bool × Settings)
save writing s = let r = write_file writing s in if r.0 then (true, as_saved r.1) else r

-- Committing leaves no parameter changed.
pub is_dirty_any-commit_each : (ps : Container) → is_dirty_any (commit_each ps) ≡ false
unfolding is_dirty_any commit_each
is_dirty_any-commit_each [] = refl
is_dirty_any-commit_each (p ∷ ps) = rw (p.is_dirty-commit p.state, is_dirty_any-commit_each ps) refl
