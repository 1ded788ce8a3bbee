-- ===== src/Engine/KillSwitch.antt =====
-- arguss/engine/kill_switch.py. The process environment and the file system are parameters.
use arguss.Base.{
  ◌≡◌, refl, Bool, true, false, ◌||◌, Option, none, some, [], ◌∷◌, Text, codes, strip, lower, is_in,
  text_eq,
}

-- `path_exists` is `Path(…).exists()`; `none` is an `OSError`.
pub record Environment : Type 0 where
  pub kill_switch : Option Text
  pub kill_switch_file_path : Option Text
  pub path_exists : Text → Option Bool

abbrev pub default_kill_switch_file : Text
default_kill_switch_file = codes "/tmp/arguss_kill_switch"

env_kill_switch_active : Option Text → Bool
env_kill_switch_active none = false
env_kill_switch_active (some raw) =
    is_in (lower (strip raw)) (codes "1" ∷ codes "true" ∷ codes "yes" ∷ [])

path_or_default : Option Text → Text
path_or_default none = default_kill_switch_file
path_or_default (some p) = p

or_false : Option Bool → Bool
or_false none = false
or_false (some b) = b

file_kill_switch_active : Environment → Bool
unfolding path_or_default or_false
file_kill_switch_active e = or_false (e.path_exists (path_or_default e.kill_switch_file_path))

unfoldable pub is_kill_switch_active : Environment → Bool
unfolding env_kill_switch_active file_kill_switch_active
is_kill_switch_active e = env_kill_switch_active e.kill_switch || file_kill_switch_active e

-- The value is stripped and its case does not matter.
padded_value :
    is_kill_switch_active (record {
      kill_switch = some (codes "  Yes ");
      kill_switch_file_path = none;
      path_exists = λ _. none;
    })
    ≡ true
unfolding is_kill_switch_active text_eq strip
padded_value = refl
