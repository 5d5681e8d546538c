-- ===== src/Agent/Handoff/Resume.antt =====
-- What a return to the bot writes back (src/moc/agent/handoff.py).
use moreofchat.Prelude.{
  ℕ, String, str_eq, eq_refl, ◌≡◌, refl, sym, ap, ◌∙◌, false, some, List, [], ◌∷◌, map, keep,
  if◌then◌else◌,
}
use moreofchat.Result.{ok, >>=-eq-ok, ok-injective}
use moreofchat.Dict.{get, put, get-put}
use moreofchat.Agent.Handoff.{Handoff, Tables, matches, one, return_row, return_to_bot}

module _ {J : Type 0} where
  pub one-map :
      (f : Handoff J → Handoff J) (rows : List (Handoff J)) (h : Handoff J)
      → one (map f rows) ≡ ok h
      → (r : Handoff J) × (rows ≡ r ∷ []) × (f r ≡ h)
  unfolding one
  one-map f [] h single = cc
  one-map f (r ∷ []) h single = (r, refl, ok-injective single)
  one-map f (r ∷ (other ∷ rows)) h single = cc

  -- A return that succeeds is of the one live handoff with that id. It leaves the conversation of that
  -- handoff at the cursor that the handoff holds, verbatim, and every other conversation at the cursor
  -- that it had.
  pub return-restores :
      (id : String) (now : ℕ) (t t' : Tables J) (h : Handoff J)
      → return_to_bot id now t ≡ ok (t', h)
      → (r : Handoff J) × (keep (matches id) t.handoffs ≡ r ∷ [])
        × (get r.conversation_id t'.cursors ≡ some r.resume_state)
        × ((c : String) → str_eq r.conversation_id c ≡ false → get c t'.cursors ≡ get c t.cursors)
  unfolding return_to_bot
  return-restores id now t t' h done =
      let read = >>=-eq-ok (one (map (return_row now) (keep (matches id) t.handoffs))) _ done in
      let row = one-map (return_row now) (keep (matches id) t.handoffs) read.0 read.1 in
      let r = row.0 in
      let written : put r.conversation_id r.resume_state t.cursors ≡ t'.cursors =
        ap (λ (x : Handoff J). put x.conversation_id x.resume_state t.cursors) row.2
        ∙ ap (λ (p : Tables J × Handoff J). p.0.cursors) (ok-injective read.2) in
      let here : get r.conversation_id (put r.conversation_id r.resume_state t.cursors)
          ≡ some r.resume_state =
        get-put r.conversation_id r.conversation_id r.resume_state t.cursors
        ∙ ap (λ b. if b then some r.resume_state else get r.conversation_id t.cursors)
            (eq_refl r.conversation_id) in
      (
        r,
        row.1,
        ap (get r.conversation_id) (sym written) ∙ here,
        λ c other.
            ap (get c) (sym written)
            ∙ get-put r.conversation_id c r.resume_state t.cursors
            ∙ ap (λ b. if b then some r.resume_state else get c t.cursors) other,
      )
