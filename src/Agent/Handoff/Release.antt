-- ===== src/Agent/Handoff/Release.antt =====
-- After a return to the bot, the bot is no longer suspended (src/moc/agent/handoff.py).
use moreofchat.Prelude.{
  ℕ, ◌+◌, ◌≤◌, String, eq_refl, ◌≡◌, refl, sym, ap, ◌∙◌, Bool, ◌&&◌, none, List, [], ◌∷◌, map, keep,
  length, Bool-cases, inl, inr, subst, arith, All,
}
use moreofchat.Result.{ok, >>=-eq-ok, ok-injective}
use moreofchat.Agent.Handoff.{
  Handoff, Tables, matches, holds, update, one, one_or_none, return_row, return_to_bot,
  live_for_conversation,
}
use moreofchat.Agent.Handoff.Live.{IsSingle, IsOver, live_count, keep-none, head-injective}
use moreofchat.Agent.Handoff.Resume.{one-map}

module _ {J : Type 0} where
  abbrev both : String → String → Handoff J → Bool
  both id c h = matches id h && holds c h

  count-return :
      (c id : String) (now : ℕ) (rows : List (Handoff J))
      → live_count c (update id (return_row now) rows) + length (keep (both id c) rows)
        ≡ live_count c rows
  count-return c id now [] = refl
  count-return c id now (h ∷ rows) = ground (arith, count-return c id now rows)

  matched-counts :
      (id : String) (r : Handoff J) (rest rows : List (Handoff J))
      → keep (matches id) rows ≡ r ∷ rest
      → 1 ≤ length (keep (both id r.conversation_id) rows)
  matched-counts id r rest [] kept = cc
  matched-counts id r rest (h ∷ rows) kept = elim (Bool-cases (matches id h)) [
    | inl here ↦
        let same : h ≡ r =
          head-injective {xs = keep (matches id) rows} {ys = rest} (ground (arith, kept, here)) in
        subst (λ (x : Handoff J). 1 ≤ length (keep (both id x.conversation_id) (h ∷ rows))) same
          (ground (arith, here, eq_refl h.conversation_id))
    | inr there ↦ ground (arith, matched-counts id r rest rows (ground (arith, kept, there)), there)
  ]

  empty_of_length : (rows : List (Handoff J)) → length rows ≡ 0 → rows ≡ []
  empty_of_length [] none_there = refl
  empty_of_length (h ∷ rows) none_there = absurd (omega (arith, none_there))

  -- Where the conversation had at most one live handoff, a return that succeeds releases the bot: the
  -- question whether it is suspended finds none, and every row that is left is of another conversation
  -- or returned.
  pub return-releases :
      (id : String) (now : ℕ) (t t' : Tables J) (h : Handoff J)
      → IsSingle t
      → return_to_bot id now t ≡ ok (t', h)
      → (live_for_conversation h.conversation_id t' ≡ ok none)
        × All (IsOver h.conversation_id) t'.handoffs
  unfolding return_to_bot live_for_conversation one_or_none IsSingle
  return-releases id now t t' h single done =
      let read = >>=-eq-ok (one (map (return_row now) (keep (matches id) t.handoffs))) _ done in
      let row = one-map (return_row now) (keep (matches id) t.handoffs) read.0 read.1 in
      let c = row.0.conversation_id in
      let same : c ≡ h.conversation_id =
        ap (λ (x : Handoff J). x.conversation_id) row.2
        ∙ ap (λ (p : Tables J × Handoff J). p.1.conversation_id) (ok-injective read.2) in
      let left : update id (return_row now) t.handoffs ≡ t'.handoffs =
        ap (λ (p : Tables J × Handoff J). p.0.handoffs) (ok-injective read.2) in
      let gone : keep (holds c) (update id (return_row now) t.handoffs) ≡ [] = empty_of_length _ (
        omega (
          arith,
          count-return c id now t.handoffs,
          matched-counts id row.0 [] t.handoffs row.1,
          single c,
        )) in
      let none_left : keep (holds h.conversation_id) t'.handoffs ≡ [] =
        ap (λ k. keep (holds k) t'.handoffs) (sym same)
        ∙ ap (λ (rows : List (Handoff J)). keep (holds c) rows) (sym left)
        ∙ gone in
      (rw none_left refl, keep-none h.conversation_id t'.handoffs none_left)
