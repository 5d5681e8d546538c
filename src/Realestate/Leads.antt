-- ===== src/Realestate/Leads.antt =====
-- src/moc/verticals/realestate/leads.py: qualifying a lead from its slots, routing it to a sales
-- team, and opening the handoff. `V` is the type of slot values; a slot that holds `None` is `none`.
-- `as_int` is the code's `isinstance(value, int)`.
pub mod Laws
mod Tests
use moreofchat.Prelude.{
  ℕ, suc, zero, ◌+◌, String, str_eq, Option, none, some, List, [], ◌∷◌, ◌++◌, if◌then◌else◌, not,
  Bool, true, false, ◌||◌, is_some, any, is_empty,
}
use moreofchat.Dict.{Dict, get}

pub record Lead (V : Type 0) : Type 0 where
  pub qualified : Bool
  pub score : ℕ
  pub property_type : Option V
  pub budget_max : Option ℕ
  pub missing : List String

pub record SalesTeam (V : Type 0) : Type 0 where
  pub team_key : String
  pub name : String
  pub contact : String
  pub property_type : Option V

abbrev pub signals : List String
signals = "city" ∷ "compound" ∷ "bedrooms" ∷ "delivery_date" ∷ []

-- `slots.get(name)`, which is `None` for a missing slot and for one that holds `None`.
pub held : {V : Type 0} → Dict (Option V) → String → Option V
held slots name = elim (get name slots) [ some (some v) ↦ some v | _ ↦ none ]

abbrev pub count : {A : Type 0} → (A → Bool) → List A → ℕ
count p [] = 0
count p (x ∷ xs) = let rest = count p xs in if p x then suc rest else rest

pub has_budget : {V : Type 0} → Dict (Option V) → Bool
unfolding held
has_budget slots = is_some (held slots "budget_max") || is_some (held slots "budget_min")

-- What `qualify` counts as known of a name.
pub known : {V : Type 0} → Dict (Option V) → String → Bool
unfolding has_budget
known slots name = if str_eq name "budget" then has_budget slots else is_some (held slots name)

pub qualify : {V : Type 0} → (V → Option ℕ) → Dict (Option V) → Lead V
unfolding known
qualify as_int slots =
    let missing =
      (if is_some (held slots "property_type") then [] else "property_type" ∷ [])
      ++ (if has_budget slots then [] else "budget" ∷ []) in
    record {
      qualified = is_empty missing;
      score = count (known slots) ("property_type" ∷ "budget" ∷ signals);
      property_type = held slots "property_type";
      budget_max = elim (held slots "budget_max") [ some v ↦ as_int v | none ↦ none ];
      missing = missing;
    }

module _ {V : Type 0} (eq : V → V → Bool) where
  -- Whether a team that names a type names the lead's.
  pub serves : Option V → Option V → Bool
  serves wanted none = false
  serves none (some type) = false
  serves (some wanted) (some type) = eq type wanted

  route_from : Option (SalesTeam V) → Option V → List (SalesTeam V) → Option (SalesTeam V)
  unfolding serves
  route_from fallback wanted [] = fallback
  route_from fallback wanted (team ∷ teams) =
      let rest =
        route_from (if is_some team.property_type then fallback else some team) wanted teams in
      if serves wanted team.property_type then some team else rest

  pub route : Lead V → List (SalesTeam V) → Option (SalesTeam V)
  unfolding route_from
  route lead teams = route_from none lead.property_type teams

-- What `open_lead` hands to `HandoffStore.open`.
pub record LeadHandoff (C S : Type 0) : Type 0 where
  pub conversation_id : C
  pub reason : String
  pub resume_state : S
  pub team : Option String
  pub lead_qualified : Bool
  pub lead_score : ℕ

pub open_lead :
    {V C S : Type 0}
    → (V → V → Bool)
    → (V → Option ℕ)
    → List (SalesTeam V)
    → C
    → String
    → Dict (Option V)
    → S
    → LeadHandoff C S × Lead V
open_lead eq as_int teams conversation_id reason slots resume_state =
    let lead = qualify as_int slots in
    let team = route eq lead teams in
    (
      record {
        conversation_id = conversation_id;
        reason = reason;
        resume_state = resume_state;
        team = elim team [ some t ↦ some t.team_key | none ↦ none ];
        lead_qualified = lead.qualified;
        lead_score = lead.score;
      },
      lead,
    )
