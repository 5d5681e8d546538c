-- ===== src/Agent/Handoff/Live.antt =====
-- At most one live handoff to a conversation (src/moc/agent/handoff.py).
use moreofchat.Prelude.{
  ℕ, ◌+◌, ◌≤◌, String, str_eq, ◌≡◌, refl, sym, ap, ◌∙◌, Bool, false, Option, none, some, List, [],
  ◌∷◌, ◌++◌, map, any, keep, if◌then◌else◌, length, Bool-cases, eq_iff, inl, inr, subst, true, ◌≢◌,
  ◌⊎◌, All, arith,
}
use Prim.{tt}
use moreofchat.Result.{Result, ok, err, >>=-eq-ok, ok-injective}
use moreofchat.Dict.{get}
use moreofchat.Agent.Handoff.{
  Status, opened, claimed, returned, is_live, Handoff, Tables, StoreError, integrity_error,
  LeadNote, holds, matches, update, one, open_row, insert, open_handoff, claim_row, claim,
  return_row, return_to_bot, one_or_none, live_for_conversation,
}

live-status : (s : Status) → is_live s ≡ true → s ≢ returned
live-status opened live same = cc
live-status claimed live same = cc
live-status returned live same = cc

over-status : (s : Status) → is_live s ≡ false → s ≡ returned
over-status opened over = cc
over-status claimed over = cc
over-status returned over = refl

pub head-injective : {A : Type 0} {a b : A} {xs ys : List A} → a ∷ xs ≡ b ∷ ys → a ≡ b
head-injective same = cc

module _ {J : Type 0} where
  abbrev pub live_count : String → List (Handoff J) → ℕ
  live_count c rows = length (keep (holds c) rows)

  -- Every conversation has at most one live handoff.
  unfoldable pub IsSingle : Tables J → Type 0
  IsSingle t = (c : String) → live_count c t.handoffs ≤ 1

  claim-live_count :
      (c id agent : String) (now : ℕ) (rows : List (Handoff J))
      → live_count c (update id (claim_row agent now) rows) ≡ live_count c rows
  claim-live_count c id agent now [] = refl
  claim-live_count c id agent now (h ∷ rows) = ground (arith, claim-live_count c id agent now rows)

  return-live_count :
      (c id : String) (now : ℕ) (rows : List (Handoff J))
      → live_count c (update id (return_row now) rows) ≤ live_count c rows
  return-live_count c id now [] = omega arith
  return-live_count c id now (h ∷ rows) = ground (arith, return-live_count c id now rows)

  live_count-append :
      (c : String) (rows : List (Handoff J)) (h : Handoff J)
      → live_count c (rows ++ (h ∷ [])) ≤ live_count c rows + (if holds c h then 1 else 0)
  live_count-append c [] h = ground arith
  live_count-append c (r ∷ rows) h = ground (arith, live_count-append c rows h)

  none_live :
      (c : String) (rows : List (Handoff J)) → any (holds c) rows ≡ false → live_count c rows ≡ 0
  none_live c [] quiet = refl
  none_live c (h ∷ rows) quiet = ground (arith, none_live c rows)

  -- What a statement that succeeds with the rows `rows` leaves.
  left_rows :
      {t t' : Tables J} {h row : Handoff J}
      → ◌≡◌ {A = Result StoreError (Tables J × Handoff J)} (ok (t, h)) (ok (t', row))
      → t.handoffs ≡ t'.handoffs
  left_rows same = ap (λ (p : Tables J × Handoff J). p.0.handoffs) (ok-injective same)

  added :
      (c : String) (h : Handoff J) (rows : List (Handoff J))
      → live_count c rows ≤ 1
      → live_count h.conversation_id rows ≡ 0
      → live_count c (rows ++ (h ∷ [])) ≤ live_count c rows + (if holds c h then 1 else 0)
      → live_count c (rows ++ (h ∷ [])) ≤ 1
  added c h rows before empty grown = elim (Bool-cases (str_eq h.conversation_id c)) [
    | inl same ↦
        let here : live_count c rows ≡ 0 =
          ap (λ k. live_count k rows) (sym ((eq_iff h.conversation_id c).0 same)) ∙ empty in
        ground arith
    | inr other ↦ ground arith
  ]

  insert-IsSingle :
      (h : Handoff J) (o : Option J) (t t' : Tables J) (row : Handoff J)
      → IsSingle t
      → insert h o t ≡ ok (t', row)
      → IsSingle t'
  unfolding insert IsSingle
  insert-IsSingle h none t t' row single inserted = cc
  insert-IsSingle h (some cursor) t t' row single inserted =
      let outcome : Bool → Result StoreError (Tables J × Handoff J) = λ b.
        if b then err integrity_error else ok (record t { handoffs = t.handoffs ++ (h ∷ []) }, h) in
      elim (Bool-cases (any (holds h.conversation_id) t.handoffs)) [
        | inl taken ↦ cc
        | inr free ↦ λ c.
            let before = single c in
            let grown = live_count-append c t.handoffs h in
            let empty = none_live h.conversation_id t.handoffs free in
            subst (λ (rows : List (Handoff J)). live_count c rows ≤ 1)
              (left_rows (ap outcome (sym free) ∙ inserted))
              (added c h t.handoffs before empty grown)
      ]

  claim-IsSingle :
      (id agent : String) (now : ℕ) (t t' : Tables J) (row : Handoff J)
      → IsSingle t
      → claim id agent now t ≡ ok (t', row)
      → IsSingle t'
  unfolding claim IsSingle
  claim-IsSingle id agent now t t' row single done c =
      let read =
        >>=-eq-ok (one (map (claim_row agent now) (keep (matches id) t.handoffs))) _ done in
      subst (λ (rows : List (Handoff J)). live_count c rows ≤ 1) (left_rows read.2)
        (omega (arith, claim-live_count c id agent now t.handoffs, single c))

  return-IsSingle :
      (id : String) (now : ℕ) (t t' : Tables J) (row : Handoff J)
      → IsSingle t
      → return_to_bot id now t ≡ ok (t', row)
      → IsSingle t'
  unfolding return_to_bot IsSingle
  return-IsSingle id now t t' row single done c =
      let read = >>=-eq-ok (one (map (return_row now) (keep (matches id) t.handoffs))) _ done in
      subst (λ (rows : List (Handoff J)). live_count c rows ≤ 1) (left_rows read.2)
        (omega (arith, return-live_count c id now t.handoffs, single c))

-- One statement of the store that succeeded.
pub data Step {J : Type 0} : Tables J → Tables J → Type 0 where
  opens :
      (id c reason : String) (cursor : J) (lead : LeadNote) (now : ℕ) (t t' : Tables J)
      (h : Handoff J)
      → open_handoff id c reason cursor lead now t ≡ ok (t', h)
      → Step t t'
  claims :
      (id agent : String) (now : ℕ) (t t' : Tables J) (h : Handoff J)
      → claim id agent now t ≡ ok (t', h)
      → Step t t'
  returns :
      (id : String) (now : ℕ) (t t' : Tables J) (h : Handoff J)
      → return_to_bot id now t ≡ ok (t', h)
      → Step t t'

pub data Steps {J : Type 0} : Tables J → Tables J → Type 0 where
  no_steps : (t : Tables J) → Steps t t
  then_step : (t t' t'' : Tables J) → Steps t t' → Step t' t'' → Steps t t''

module _ {J : Type 0} where
  Step-IsSingle : (t t' : Tables J) → Step t t' → IsSingle t → IsSingle t'
  unfolding open_handoff
  Step-IsSingle _ _ (opens id c reason cursor lead now t t' h done) single =
      insert-IsSingle (open_row id c reason cursor lead now) (get c t.cursors) t t' h single done
  Step-IsSingle _ _ (claims id agent now t t' h done) single =
      claim-IsSingle id agent now t t' h single done
  Step-IsSingle _ _ (returns id now t t' h done) single = return-IsSingle id now t t' h single done

  Steps-IsSingle : (t t' : Tables J) → Steps t t' → IsSingle t → IsSingle t'
  Steps-IsSingle _ _ (no_steps t) single = single
  Steps-IsSingle _ _ (then_step t t' t'' steps step) single =
      Step-IsSingle t' t'' step (Steps-IsSingle t t' steps single)

  no_pair : (h other : Handoff J) (kept : List (Handoff J)) → ¬ (length (h ∷ (other ∷ kept)) ≤ 1)
  no_pair h other kept = omega arith

  -- A handoff of the conversation that is open or claimed.
  abbrev pub IsLive : String → Handoff J → Type 0
  IsLive c h = (h.conversation_id ≡ c) × (h.status ≢ returned)

  -- A handoff of another conversation, or one that was returned.
  abbrev pub IsOver : String → Handoff J → Type 0
  IsOver c h = (h.conversation_id ≢ c) ⊎ (h.status ≡ returned)

  -- What the question finds: a row that is live, or that none is.
  abbrev pub IsFound : String → List (Handoff J) → Option (Handoff J) → Type 0
  IsFound c rows none = All (IsOver c) rows
  IsFound c rows (some h) =
      (before : List (Handoff J)) × (after : List (Handoff J)) × (rows ≡ before ++ (h ∷ after))
      × IsLive c h

  holds-IsLive : (c : String) (h : Handoff J) → holds c h ≡ true → IsLive c h
  holds-IsLive c h live = (
    (eq_iff h.conversation_id c).0 (ground (arith, live)),
    live-status h.status (ground (arith, live)),
  )

  pub holds-IsOver : (c : String) (h : Handoff J) → holds c h ≡ false → IsOver c h
  holds-IsOver c h over = elim (Bool-cases (str_eq h.conversation_id c)) [
    | inl same ↦ inr (over-status h.status (ground (arith, over, same)))
    | inr other ↦ inl (λ e. absurd (ground (arith, other, (eq_iff h.conversation_id c).1 e)))
  ]

  keep-head :
      (c : String) (rows : List (Handoff J)) (h : Handoff J) (rest : List (Handoff J))
      → keep (holds c) rows ≡ h ∷ rest
      → IsFound c rows (some h)
  keep-head c [] h rest kept = cc
  keep-head c (r ∷ rows) h rest kept = elim (Bool-cases (holds c r)) [
    | inl live ↦
        let same : r ≡ h =
          head-injective {xs = keep (holds c) rows} {ys = rest} (ground (arith, kept, live)) in
        (
          [],
          rows,
          ap (λ (x : Handoff J). x ∷ rows) same,
          subst (IsLive c) same (holds-IsLive c r live),
        )
    | inr over ↦
        let found = keep-head c rows h rest (ground (arith, kept, over)) in
        (r ∷ found.0, found.1, ap (λ (xs : List (Handoff J)). r ∷ xs) found.2, found.3)
  ]

  pub keep-none :
      (c : String) (rows : List (Handoff J)) → keep (holds c) rows ≡ [] → All (IsOver c) rows
  keep-none c [] kept = tt
  keep-none c (r ∷ rows) kept = elim (Bool-cases (holds c r)) [
    | inl live ↦ absurd (ground (arith, kept, live))
    | inr over ↦ (holds-IsOver c r over, keep-none c rows (ground (arith, kept, over)))
  ]

  one_or_none_le :
      (c : String) (rows kept : List (Handoff J))
      → length kept ≤ 1
      → keep (holds c) rows ≡ kept
      → (o : Option (Handoff J)) × (one_or_none kept ≡ ok o) × IsFound c rows o
  unfolding one_or_none
  one_or_none_le c rows [] few kept = (none, refl, keep-none c rows kept)
  one_or_none_le c rows (h ∷ []) few kept = (some h, refl, keep-head c rows h [] kept)
  one_or_none_le c rows (h ∷ (other ∷ rest)) few kept = absurd (no_pair h other rest few)

  -- From tables with at most one live handoff to a conversation, whatever opens, claims and returns
  -- succeed, the question whether the bot is suspended has an answer: it never meets two rows; where it
  -- finds one, that is a row of this very conversation that is not returned, and where it finds none,
  -- every row is of another conversation or returned.
  pub live-IsDecided :
      (t t' : Tables J) (c : String)
      → IsSingle t
      → Steps t t'
      → (o : Option (Handoff J)) × (live_for_conversation c t' ≡ ok o) × IsFound c t'.handoffs o
  unfolding live_for_conversation IsSingle
  live-IsDecided t t' c single steps =
      one_or_none_le c t'.handoffs (keep (holds c) t'.handoffs) (Steps-IsSingle t t' steps single c)
        refl
