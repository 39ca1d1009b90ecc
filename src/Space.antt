-- ===== src/Space.antt =====
-- lib/common/space.cpp: whether a thread runs the application's code or the runtime's. A failed
-- assertion is `none`.
use xtern.Base.{Bool, true, false, Option, some, require, ◌>>◌}

pub data Space : Type 0 where
  sys app : Space

unfoldable pub is_app : Space → Bool
is_app app = true
is_app sys = false

unfoldable pub is_sys : Space → Bool
is_sys sys = true
is_sys app = false

-- `current_space = !current_space`.
unfoldable pub cross : Space → Space
cross sys = app
cross app = sys

-- `setSpace`: the space before, and the space after.
pub set_space : Space → Space → Space × Space
set_space s old = (old, s)

pub get_space : Space → Space
get_space s = s

unfoldable pub enter_sys : Space → Option Space
enter_sys s = do require (is_app s); some (cross s)

unfoldable pub exit_sys : Space → Option Space
exit_sys s = do require (is_sys s); some (cross s)
