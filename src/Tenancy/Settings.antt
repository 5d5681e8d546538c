-- ===== src/Tenancy/Settings.antt =====
-- src/moc/tenancy/settings.py: the settings of one tenant and their audit. `N` is the type of the
-- numbers, with `<` on them as `lt`; a value that is no number is kept as it is. `floor` is the
-- `min_score` of the platform and `one` the highest score.
pub mod Bounds
pub mod Trail
mod Tests
use moreofchat.Prelude.{
  ℕ, String, Bool, true, false, Option, none, some, List, [], ◌∷◌, ◌++◌, if◌then◌else◌,
}
use Prim.{Unit, tt}
use moreofchat.Result.{Result, ok, err, ◌>>=◌, ◌>>◌}
use moreofchat.Dict.{Dict, get, put}

-- A Boolean is no number here, as in `_check`.
pub data Value (N J : Type 0) : Type 0 where
  number : N → Value N J
  other : J → Value N J

pub data Bound (N : Type 0) : Type 0 where
  between : N → N → Bound N
  unbounded : Bound N

-- `BelowFloor` with each of its four messages.
pub data BelowFloor : Type 0 where
  undeclared : String → BelowFloor
  not_a_number : String → BelowFloor
  below_floor : String → BelowFloor
  above_max : String → BelowFloor

pub record Audit (N J : Type 0) : Type 0 where
  pub setting : String
  pub old_value : Option (Value N J)
  pub new_value : Value N J
  pub agent_id : String

pub record SettingsTables (N J : Type 0) : Type 0 where
  pub tenant_settings : Dict (Value N J)
  pub settings_audit : List (Audit N J)

module _ {N J : Type 0} (lt : N → N → Bool) (floor one : N) (no_words : J) where
  unfoldable pub bounds : Dict (Bound N)
  bounds = ("min_score", between floor one) ∷ (("synonyms", unbounded) ∷ [])

  unfoldable pub defaults : Dict (Value N J)
  defaults = ("min_score", number floor) ∷ (("synonyms", other no_words) ∷ [])

  unfoldable pub check_number : String → N → N → Value N J → Result BelowFloor (Unit {0})
  check_number name min max (other j) = err (not_a_number name)
  check_number name min max (number n) =
      if lt n min then err (below_floor name) else if lt max n then err (above_max name) else ok tt

  unfoldable pub check_bound : String → Value N J → Option (Bound N) → Result BelowFloor (Unit {0})
  check_bound name value none = err (undeclared name)
  check_bound name value (some unbounded) = ok tt
  check_bound name value (some (between min max)) = check_number name min max value

  -- `_check` of each change, before anything is written.
  unfoldable pub check_all : Dict (Value N J) → Result BelowFloor (Unit {0})
  check_all [] = ok tt
  check_all ((name, value) ∷ changes) =
      check_bound name value (get name bounds) >> check_all changes

  unfoldable pub over : Dict (Value N J) → Dict (Value N J) → Dict (Value N J)
  over settings [] = settings
  over settings ((name, value) ∷ rows) = over (put name value settings) rows

  unfoldable pub effective : SettingsTables N J → Dict (Value N J)
  effective t = over defaults t.tenant_settings

  unfoldable pub write_all :
      Dict (Value N J) → String → Dict (Value N J) → SettingsTables N J → SettingsTables N J
  write_all current agent_id [] t = t
  write_all current agent_id ((name, value) ∷ changes) t =
      write_all current agent_id changes (record {
        tenant_settings = put name value t.tenant_settings;
        settings_audit =
            t.settings_audit
            ++ (record {
              setting = name;
              old_value = get name current;
              new_value = value;
              agent_id = agent_id;
            }
                ∷ []);
      })

  -- The tables after `put`, and what it answers.
  unfoldable pub put_settings :
      Dict (Value N J)
      → String
      → SettingsTables N J
      → Result BelowFloor (SettingsTables N J × Dict (Value N J))
  put_settings changes agent_id t = check_all changes >>= λ checked.
      let written = write_all (effective t) agent_id changes t in ok (written, effective written)
