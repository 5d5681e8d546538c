-- ===== src/Tenancy/Settings/Bounds.antt =====
-- No setting leaves its bounds (src/moc/tenancy/settings.py).
use moreofchat.Prelude.{
  ◌≡◌, sym, String, str_eq, eq_iff, Bool, false, Option, none, some, [], ◌∷◌, ◌||◌, true, if-elim,
  Bool-cases, inl, inr, ◌⊎◌, arith, subst,
}
use Prim.{Unit, tt, ⊥}
use moreofchat.Result.{ok, >>=-eq-ok, ok-injective}
use moreofchat.Dict.{Dict, get, put, get-put}
use moreofchat.Tenancy.Settings.{
  Value, number, other, SettingsTables, bounds, check_number, check_bound, check_all, effective,
  write_all, put_settings,
}

module _ {N J : Type 0} (lt le : N → N → Bool) (is_nan : N → Bool) (floor one : N) (no_words : J)
    (compares : (a b : N) → is_nan a || is_nan b ≡ false → lt a b ≡ false → le b a ≡ true)
    (floor_number : is_nan floor ≡ false) (one_number : is_nan one ≡ false) where
  -- No score at all, NaN, or a score from the floor to one, both included.
  abbrev pub IsScore : Option (Value N J) → Type 0
  IsScore none = Unit {0}
  IsScore (some (other j)) = ⊥
  IsScore (some (number n)) = (is_nan n ≡ true) ⊎ ((le floor n ≡ true) × (le n one ≡ true))

  check_number-IsScore :
      (name : String) (value : Value N J)
      → check_number lt floor one no_words name floor one value ≡ ok tt
      → IsScore (some value)
  unfolding check_number
  check_number-IsScore name (other j) checked = cc
  check_number-IsScore name (number n) checked = elim (Bool-cases (is_nan n)) [
    | inl nan ↦ inl nan
    | inr a_number ↦ inr (
      compares n floor (ground (arith, a_number, floor_number)) (ground (arith, checked)),
      compares one n (ground (arith, a_number, one_number)) (ground (arith, checked)),
    )
  ]

  IsScore-put :
      (name : String) (value : Value N J) (rows : Dict (Value N J))
      → check_bound lt floor one no_words name value (get name (bounds lt floor one no_words))
        ≡ ok tt
      → IsScore (get "min_score" rows)
      → IsScore (get "min_score" (put name value rows))
  unfolding bounds check_bound get
  IsScore-put name value rows checked held =
      subst IsScore (sym (get-put name "min_score" value rows)) (
        if-elim IsScore (str_eq name "min_score")
          (λ same. check_number-IsScore "min_score" value (
            subst
              (λ n.
                check_bound lt floor one no_words n value (get n (bounds lt floor one no_words))
                ≡ ok tt)
              ((eq_iff name "min_score").0 same) checked))
          (λ another. held))

  write_all-IsScore :
      (current : Dict (Value N J)) (agent_id : String) (changes : Dict (Value N J))
      (t : SettingsTables N J)
      → check_all lt floor one no_words changes ≡ ok tt
      → IsScore (get "min_score" t.tenant_settings)
      → IsScore (
          get "min_score"
            (write_all lt floor one no_words current agent_id changes t).tenant_settings)
  unfolding write_all check_all
  write_all-IsScore current agent_id [] t checked held = held
  write_all-IsScore current agent_id ((name, value) ∷ changes) t checked held =
      let first =
        >>=-eq-ok
          (check_bound lt floor one no_words name value (get name (bounds lt floor one no_words))) _
          checked in
      write_all-IsScore current agent_id changes _ first.2
        (IsScore-put name value t.tenant_settings first.1 held)

  -- The score that a tenant runs on stays in its bounds through any change, or is NaN: where the
  -- order is that of floats, in which every two numbers other than NaN compare, and neither bound is
  -- NaN, a stored score that is absent, NaN or from the floor to one is so still after `put` accepts a
  -- set of changes.
  pub put_settings-IsScore :
      (changes : Dict (Value N J)) (agent_id : String) (t after : SettingsTables N J)
      (answer : Dict (Value N J))
      → put_settings lt floor one no_words changes agent_id t ≡ ok (after, answer)
      → IsScore (get "min_score" t.tenant_settings)
      → IsScore (get "min_score" after.tenant_settings)
  unfolding put_settings
  put_settings-IsScore changes agent_id t after answer accepted held =
      let checked = >>=-eq-ok (check_all lt floor one no_words changes) _ accepted in
      subst
        (λ (r : SettingsTables N J × Dict (Value N J)).
          IsScore (get "min_score" r.0.tenant_settings))
        (ok-injective checked.2)
        (write_all-IsScore (effective lt floor one no_words t) agent_id changes t checked.1 held)
