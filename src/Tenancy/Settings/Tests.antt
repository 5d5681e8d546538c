-- ===== src/Tenancy/Settings/Tests.antt =====
-- Changes of a tenant on small tables (src/moc/tenancy/settings.py).
use moreofchat.Prelude.{
  ℕ, ◌≡◌, refl, String, some, [], ◌∷◌, ◌++◌, ltb, leb, ◌||◌, Bool, true, false, arith, map,
}
use Prim.{tt}
use moreofchat.Result.{ok, err}
use moreofchat.Dict.{Dict, get, put}
use moreofchat.Tenancy.Settings.{
  Value, number, other, SettingsTables, below_floor, bounds, defaults, check_number, check_bound,
  check_all, over, effective, write_all, put_settings,
}
use moreofchat.Tenancy.Settings.Bounds.{IsScore, put_settings-IsScore}
use moreofchat.Tenancy.Settings.Trail.{audit_row, put_each, put_settings-audited}

-- No natural number is NaN.
abbrev never : ℕ → Bool
never n = false

abbrev tables : SettingsTables ℕ String
tables = record { tenant_settings = []; settings_audit = [] }

abbrev score : ℕ → Dict (Value ℕ String)
score n = ("min_score", number n) ∷ []

abbrev written : SettingsTables ℕ String
written = record {
  tenant_settings = ("min_score", number 50) ∷ [];
  settings_audit =
      record {
        setting = "min_score";
        old_value = some (number 35);
        new_value = number 50;
        agent_id = "rana";
      }
      ∷ [];
}

abbrev now_effective : Dict (Value ℕ String)
now_effective = ("min_score", number 50) ∷ (("synonyms", other "{}") ∷ [])

lowered : put_settings ltb 35 100 "{}" (score 20) "rana" tables ≡ err (below_floor "min_score")
unfolding put_settings check_all check_bound check_number bounds get
lowered = refl

raised : put_settings ltb 35 100 "{}" (score 50) "rana" tables ≡ ok (written, now_effective)
unfolding put_settings check_all check_bound check_number bounds get write_all put effective over
    defaults
raised = refl

orders : (a b : ℕ) → never a || never b ≡ false → ltb a b ≡ false → leb b a ≡ true
orders a b numbers low = ground (arith, low)

put_settings-IsScore_example :
    IsScore ltb leb never 35 100 "{}" orders refl refl (get "min_score" written.tenant_settings)
unfolding get
put_settings-IsScore_example =
    put_settings-IsScore ltb leb never 35 100 "{}" orders refl refl (score 50) "rana" tables written
      now_effective raised tt

put_settings-audited_example :
    (check_all ltb 35 100 "{}" (score 50) ≡ ok tt)
    × (written.tenant_settings ≡ put_each ltb 35 100 "{}" tables.tenant_settings (score 50))
    × (written.settings_audit
        ≡ tables.settings_audit
          ++ map (audit_row ltb 35 100 "{}" (effective ltb 35 100 "{}" tables) "rana") (score 50))
    × (now_effective ≡ effective ltb 35 100 "{}" written)
put_settings-audited_example =
    put_settings-audited ltb 35 100 "{}" (score 50) "rana" tables written now_effective raised
