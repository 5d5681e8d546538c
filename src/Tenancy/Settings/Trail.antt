-- ===== src/Tenancy/Settings/Trail.antt =====
-- What a change leaves in the audit (src/moc/tenancy/settings.py).
use moreofchat.Prelude.{
  ◌≡◌, refl, sym, ap, ◌∙◌, String, Bool, [], ◌∷◌, ◌++◌, map, append_assoc, append-nil,
}
use Prim.{tt}
use moreofchat.Result.{ok, >>=-eq-ok, ok-injective}
use moreofchat.Dict.{Dict, get, put}
use moreofchat.Tenancy.Settings.{
  Value, Audit, SettingsTables, check_all, effective, write_all, put_settings,
}

module _ {N J : Type 0} (lt : N → N → Bool) (floor one : N) (no_words : J) where
  abbrev pub audit_row : Dict (Value N J) → String → String × Value N J → Audit N J
  audit_row current agent_id change = record {
    setting = change.0;
    old_value = get change.0 current;
    new_value = change.1;
    agent_id = agent_id;
  }

  -- The rows with the changes put in one after the other.
  abbrev pub put_each : Dict (Value N J) → Dict (Value N J) → Dict (Value N J)
  put_each rows [] = rows
  put_each rows ((name, value) ∷ changes) = put_each (put name value rows) changes

  write_all-both :
      (current : Dict (Value N J)) (agent_id : String) (changes : Dict (Value N J))
      (t : SettingsTables N J)
      → ((write_all lt floor one no_words current agent_id changes t).settings_audit
          ≡ t.settings_audit ++ map (audit_row current agent_id) changes)
        × ((write_all lt floor one no_words current agent_id changes t).tenant_settings
            ≡ put_each t.tenant_settings changes)
  unfolding write_all
  write_all-both current agent_id [] t = (sym (append-nil t.settings_audit), refl)
  write_all-both current agent_id ((name, value) ∷ changes) t =
      let rest = write_all-both current agent_id changes (record {
        tenant_settings = put name value t.tenant_settings;
        settings_audit = t.settings_audit ++ (audit_row current agent_id (name, value) ∷ []);
      }) in
      (
        rest.0
            ∙ append_assoc t.settings_audit (audit_row current agent_id (name, value) ∷ [])
                (map (audit_row current agent_id) changes),
        rest.1,
      )

  -- A set of changes is applied whole or not at all: where `put` answers, every change was accepted by
  -- its bound, all of them are in the rows, and the audit has gained one row for each, in order, with
  -- the value that the tenant ran on before any of them and the agent who asked.
  pub put_settings-audited :
      (changes : Dict (Value N J)) (agent_id : String) (t after : SettingsTables N J)
      (answer : Dict (Value N J))
      → put_settings lt floor one no_words changes agent_id t ≡ ok (after, answer)
      → (check_all lt floor one no_words changes ≡ ok tt)
        × (after.tenant_settings ≡ put_each t.tenant_settings changes)
        × (after.settings_audit
            ≡ t.settings_audit
              ++ map (audit_row (effective lt floor one no_words t) agent_id) changes)
        × (answer ≡ effective lt floor one no_words after)
  unfolding put_settings
  put_settings-audited changes agent_id t after answer accepted =
      let checked = >>=-eq-ok (check_all lt floor one no_words changes) _ accepted in
      let same = ok-injective checked.2 in
      let both = write_all-both (effective lt floor one no_words t) agent_id changes t in
      let there = ap (λ (r : SettingsTables N J × Dict (Value N J)). r.0) same in
      (
        checked.1,
        sym (ap (λ (r : SettingsTables N J). r.tenant_settings) there) ∙ both.1,
        sym (ap (λ (r : SettingsTables N J). r.settings_audit) there) ∙ both.0,
        sym (ap (λ (r : SettingsTables N J × Dict (Value N J)). r.1) same)
            ∙ ap (effective lt floor one no_words) there,
      )
