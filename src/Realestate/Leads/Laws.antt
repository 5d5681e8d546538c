-- ===== src/Realestate/Leads/Laws.antt =====
-- What a lead counts, and where the router sends it.
use mathlib.Core.List.{Memᴰ}
use moreofchat.Prelude.{
  ℕ, ◌≤◌, String, Option, none, some, List, [], ◌∷◌, if◌then◌else◌, not, Bool, true, false, is_some,
  any, ◌≡◌, refl, ◌↔◌, ◌⊎◌, inl, inr, arith, Bool-cases,
}
use moreofchat.Dict.{Dict}
use moreofchat.Realestate.Leads.{
  Lead, SalesTeam, held, qualify, serves, route_from, route, open_lead,
}

module _ {V : Type 0} (as_int : V → Option ℕ) (slots : Dict (Option V)) where
  -- A lead is qualified exactly when its type is known and one of the two budgets is.
  pub qualify-qualified : ((qualify as_int slots).qualified ≡ true) ↔ (
      (is_some (held slots "property_type") ≡ true)
      × ((is_some (held slots "budget_max") ≡ true) ⊎ (is_some (held slots "budget_min") ≡ true)))
  unfolding qualify
  qualify-qualified = (λ h. ground (arith, h), λ h. ground (arith, h))

  -- The score counts at most the six things that narrow a call, and a qualified lead scores two at
  -- least.
  pub qualify-score_bounds :
      ((qualify as_int slots).score ≤ 6)
      × ((qualify as_int slots).qualified ≡ true → 2 ≤ (qualify as_int slots).score)
  unfolding qualify
  qualify-score_bounds = (ground arith, λ h. ground (arith, h))

module _ {V : Type 0} (eq : V → V → Bool) where
  abbrev pub any_serves : Option V → List (SalesTeam V) → Bool
  any_serves wanted teams = any (λ team. serves eq wanted team.property_type) teams

  route_from-serves :
      (fallback : Option (SalesTeam V)) (wanted : Option V) (teams : List (SalesTeam V))
      → any_serves wanted teams ≡ true
      → (t : SalesTeam V) × (route_from eq fallback wanted teams ≡ some t)
        × Memᴰ t teams
        × (serves eq wanted t.property_type ≡ true)
  unfolding route_from
  route_from-serves fallback wanted [] h = cc
  route_from-serves fallback wanted (team ∷ teams) h =
      elim (Bool-cases (serves eq wanted team.property_type)) [
        | inl yes_it ↦ (team, ground (arith, yes_it), Memᴰ.head refl, yes_it)
        | inr other ↦
            let (t, found, there, s) =
              route_from-serves (if is_some team.property_type then fallback else some team) wanted
                teams (ground (arith, h, other)) in
            (t, ground (arith, found, other), Memᴰ.tail there, s)
      ]

  -- The last team of the list that names no type, or what stood before.
  abbrev pub last_open : Option (SalesTeam V) → List (SalesTeam V) → Option (SalesTeam V)
  last_open fallback [] = fallback
  last_open fallback (team ∷ teams) =
      last_open (if is_some team.property_type then fallback else some team) teams

  route_from-open :
      (fallback : Option (SalesTeam V)) (wanted : Option V) (teams : List (SalesTeam V))
      → any_serves wanted teams ≡ false
      → route_from eq fallback wanted teams ≡ last_open fallback teams
  unfolding route_from
  route_from-open fallback wanted [] h = refl
  route_from-open fallback wanted (team ∷ teams) h = ground (
    arith,
    h,
    route_from-open (if is_some team.property_type then fallback else some team) wanted teams,
  )

  -- A lead goes to a team of the list that claims its type if there is one; if there is none it goes
  -- to the last team that claims no type, and to nobody where every team claims one. A specialist
  -- in another type never gets it.
  pub route_lem :
      (lead : Lead V) (teams : List (SalesTeam V))
      → ((any_serves lead.property_type teams ≡ true)
          × ((t : SalesTeam V) × (route eq lead teams ≡ some t)
              × Memᴰ t teams
              × (serves eq lead.property_type t.property_type ≡ true)))
        ⊎ ((any_serves lead.property_type teams ≡ false)
            × (route eq lead teams ≡ last_open none teams))
  unfolding route
  route_lem lead teams = elim (Bool-cases (any_serves lead.property_type teams)) [
    | inl yes_it ↦ inl (yes_it, route_from-serves none lead.property_type teams yes_it)
    | inr nobody ↦ inr (nobody, route_from-open none lead.property_type teams nobody)
  ]

  last_open-typed :
      (fallback : Option (SalesTeam V)) (teams : List (SalesTeam V))
      → any (λ team. not (is_some team.property_type)) teams ≡ false
      → last_open fallback teams ≡ fallback
  last_open-typed fallback [] h = refl
  last_open-typed fallback (team ∷ teams) h = ground (arith, h, last_open-typed fallback teams)

  -- An unroutable lead is not dropped: where no team claims its type and none is open, the handoff
  -- is opened with no team, and carries the lead's verdict and score all the same.
  pub open_lead-unroutable :
      {C S : Type 0} (as_int : V → Option ℕ) (teams : List (SalesTeam V)) (conversation : C)
      (reason : String) (slots : Dict (Option V)) (resume : S)
      → any_serves (held slots "property_type") teams ≡ false
      → any (λ team. not (is_some team.property_type)) teams ≡ false
      → (open_lead eq as_int teams conversation reason slots resume).0 ≡ record {
        conversation_id = conversation;
        reason = reason;
        resume_state = resume;
        team = none;
        lead_qualified = (qualify as_int slots).qualified;
        lead_score = (qualify as_int slots).score;
      }
  unfolding open_lead route qualify
  open_lead-unroutable as_int teams conversation reason slots resume unclaimed typed = ground (
    arith,
    route_from-open none (held slots "property_type") teams unclaimed,
    last_open-typed none teams typed,
  )
