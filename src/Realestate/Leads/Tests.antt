-- ===== src/Realestate/Leads/Tests.antt =====
-- A lead for a villa, and a list of teams with a specialist in each type and one without.
use moreofchat.Prelude.{ℕ, String, str_eq, Option, none, some, List, [], ◌∷◌, ◌≡◌, refl, true}
use moreofchat.Dict.{Dict, get}
use moreofchat.Realestate.Leads.{Lead, SalesTeam, qualify, route}

abbrev no_int : String → Option ℕ
no_int s = none

abbrev slots : Dict (Option String)
slots = ("property_type", some "villa") ∷ ("budget_min", some "5m") ∷ ("city", none) ∷ []

abbrev villas : SalesTeam String
villas = record { team_key = "v"; name = "Villas"; contact = "1"; property_type = some "villa" }

abbrev offices : SalesTeam String
offices = record { team_key = "o"; name = "Offices"; contact = "2"; property_type = some "office" }

abbrev desk : SalesTeam String
desk = record { team_key = "d"; name = "Desk"; contact = "3"; property_type = none }

qualified_run : (qualify no_int slots).qualified ≡ true
unfolding qualify get
qualified_run = refl

routed_run : route str_eq (qualify no_int slots) (desk ∷ offices ∷ villas ∷ []) ≡ some villas
unfolding qualify route get
routed_run = refl

abbrev lead : Lead String
lead = qualify no_int slots

abbrev teams : List (SalesTeam String)
teams = desk ∷ offices ∷ villas ∷ []
