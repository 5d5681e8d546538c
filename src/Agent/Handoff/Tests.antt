-- ===== src/Agent/Handoff/Tests.antt =====
-- One conversation handed off, claimed and given back; a cursor is a number.
use moreofchat.Prelude.{
  All, ℕ, String, str_eq, ◌≡◌, refl, false, Option, none, some, [], ◌∷◌, keep, arith,
}
use moreofchat.Result.{ok, err}
use moreofchat.Dict.{get, put}
use moreofchat.Agent.Handoff.{
  Handoff, Tables, LeadNote, opened, open_row, insert, open_handoff, claim_row, return_row,
  return_to_bot, one, live_for_conversation, matches, integrity_error,
}
use moreofchat.Agent.Handoff.Live.{
  IsSingle, IsFound, IsOver, opens, no_steps, then_step, live-IsDecided,
}
use moreofchat.Agent.Handoff.Resume.{return-restores}
use moreofchat.Agent.Handoff.Release.{return-releases}

abbrev quiet : Tables ℕ
quiet = record { handoffs = []; cursors = ("c1", 7) ∷ (("c2", 3) ∷ []) }

abbrev no_lead : LeadNote
no_lead = record { team = none; lead_qualified = none; lead_score = none }

abbrev row : Handoff ℕ
row = record {
  id = "h1";
  conversation_id = "c1";
  reason = "customer asked for a human";
  status = opened;
  resume_state = 7;
  opened_at = 100;
  claimed_at = none;
  claimed_by = none;
  returned_at = none;
  team = none;
  lead_qualified = none;
  lead_score = none;
}

abbrev suspended : Tables ℕ
suspended = record quiet { handoffs = row ∷ [] }

abbrev held : Tables ℕ
held = record quiet {
  handoffs = claim_row "mona" 120 row ∷ [];
  cursors = ("c1", 9) ∷ (("c2", 3) ∷ []);
}

abbrev back : Tables ℕ
back = record quiet { handoffs = return_row 150 (claim_row "mona" 120 row) ∷ [] }

open_row_one :
    open_handoff "h1" "c1" "customer asked for a human" 7 no_lead 100 quiet ≡ ok (suspended, row)
unfolding open_handoff insert open_row get
open_row_one = refl

open_twice :
    open_handoff "h2" "c1" "customer asked for a human" 7 no_lead 101 suspended
    ≡ err integrity_error
unfolding open_handoff insert open_row get
open_twice = refl

return_held : return_to_bot "h1" 150 held ≡ ok (back, return_row 150 (claim_row "mona" 120 row))
unfolding return_to_bot one put
return_held = refl

quiet-IsSingle : IsSingle quiet
unfolding IsSingle
quiet-IsSingle = λ c. omega arith

held-IsSingle : IsSingle held
unfolding IsSingle
held-IsSingle = λ c. ground arith

live-IsDecided_example :
    (o : Option (Handoff ℕ)) × (live_for_conversation "c1" suspended ≡ ok o)
    × IsFound "c1" suspended.handoffs o
live-IsDecided_example = live-IsDecided quiet suspended "c1" quiet-IsSingle (
    then_step quiet quiet suspended (no_steps quiet)
      (opens "h1" "c1" "customer asked for a human" 7 no_lead 100 quiet suspended row open_row_one))

return-restores_example :
    (r : Handoff ℕ) × (keep (matches "h1") held.handoffs ≡ r ∷ [])
    × (get r.conversation_id back.cursors ≡ some r.resume_state)
    × ((c : String) → str_eq r.conversation_id c ≡ false → get c back.cursors ≡ get c held.cursors)
return-restores_example =
    return-restores "h1" 150 held back (return_row 150 (claim_row "mona" 120 row)) return_held

return-releases_example :
    (live_for_conversation "c1" back ≡ ok none) × All (IsOver "c1") back.handoffs
return-releases_example =
    return-releases "h1" 150 held back (return_row 150 (claim_row "mona" 120 row)) held-IsSingle
      return_held
