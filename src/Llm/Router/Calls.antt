-- ===== src/Llm/Router/Calls.antt =====
-- Which providers a completion calls, and what it leaves of the breakers.
use mathlib.Core.List.{append_assoc, append-nil}
use moreofchat.Prelude.{
  ℕ, suc, ◌≤◌, String, str_eq, eq_iff, Option, some, List, [], ◌∷◌, ◌++◌, not, Bool, true, false,
  ◌≡◌, refl, sym, ◌≢◌, ◌⊎◌, inl, inr, arith, length, All, Bool-cases, Option-cases, keep, get_or,
}
use moreofchat.Dict.{get, AllValues, AllValues-get, AllValues-put}
use moreofchat.Llm.Base.{Completion, Reply, completed, unavailable, failed}
use moreofchat.Llm.Router.{
  Breaker, is_open, record_success, record_failure, Candidate, TaskSpec, Router, Attempt, Call, Run,
  Step, skip, done, settle, try_breaker, try_candidate, try_all, candidates_of, allowed, start,
  complete, proceed,
}
use moreofchat.Llm.Router.Circuit.{
  IsSound, is_open-IsSound, record_success-IsSound, record_failure-IsSound,
}

-- What trying one candidate may do to the run: nothing but that one call is added, every breaker
-- stays sound, and an event is emitted only for a completion that is returned.
record Tried (c : Candidate) (max_tokens : ℕ) (run : Run) (out : Run × Step) : Type 0 where
  called :
      (out.0.calls ≡ run.calls)
      ⊎ (out.0.calls ≡ run.calls ++ (record { candidate = c; max_tokens = max_tokens } ∷ []))
  sound : AllValues IsSound run.breakers → AllValues IsSound out.0.breakers

-- Calls made of some of the candidates, each at most once and in their order.
pub data Taken (max_tokens : ℕ) : List Candidate → List Call → Type 0 where
  stop : (cs : List Candidate) → Taken max_tokens cs []
  miss :
      (c : Candidate) {cs : List Candidate} {calls : List Call}
      → Taken max_tokens cs calls
      → Taken max_tokens (c ∷ cs) calls
  made :
      (c : Candidate) {cs : List Candidate} {calls : List Call}
      → Taken max_tokens cs calls
      → Taken max_tokens (c ∷ cs) (record { candidate = c; max_tokens = max_tokens } ∷ calls)

-- What a run over the candidates may have done since `run`.
pub record Tries (max_tokens : ℕ) (candidates : List Candidate) (run out : Run) : Type 0 where
  pub calls : List Call
  pub called : out.calls ≡ run.calls ++ calls
  pub within : Taken max_tokens candidates calls
  pub sound : AllValues IsSound run.breakers → AllValues IsSound out.breakers

module _ (router : Router) (task : String) (max_tokens : ℕ) where
  settle-IsSound :
      (first : Bool) (name : String) (b : Breaker) (a : Attempt) (run : Run)
      → IsSound b
      → AllValues IsSound run.breakers
      → AllValues IsSound (settle router task max_tokens first name b a run).0.breakers
  unfolding settle
  settle-IsSound first name b a run s h = go a.reply
    where
      go :
          (r : Reply Completion)
          → AllValues IsSound
              (settle router task max_tokens first name b (record a { reply = r }) run).0.breakers
      go (completed c) =
          AllValues-put IsSound name (record_success b) run.breakers (record_success-IsSound b s) h
      go unavailable =
          AllValues-put IsSound name (record_failure b a.failed_at) run.breakers
            (record_failure-IsSound b a.failed_at s) h
      go (failed x) = h

  try_breaker-Tried :
      (first : Bool) (c : Candidate) (name : String) (b : Breaker) (a : Attempt) (run : Run)
      → get name run.breakers ≡ some b
      → Tried c max_tokens run (try_breaker router task max_tokens first c name b a run)
  unfolding try_breaker
  try_breaker-Tried first c name b a run found = record {
    called = unfold settle in ground arith;
    sound = λ h.
        let safe =
          is_open-IsSound b a.checked_at (AllValues-get IsSound name run.breakers b h found) in
        let kept = AllValues-put IsSound name (is_open b a.checked_at).1 run.breakers safe h in
        elim (Bool-cases (is_open b a.checked_at).0) [
          | inl open_now ↦ rw open_now kept
          | inr shut ↦ rw shut (settle-IsSound first name (is_open b a.checked_at).1 a _ safe kept)
        ];
  }

  try_candidate-Tried :
      (first : Bool) (c : Candidate) (a : Attempt) (run : Run)
      → Tried c max_tokens run (try_candidate router task max_tokens first c a run)
  unfolding try_candidate
  try_candidate-Tried first c a run = elim (Option-cases (get c.provider router.providers)) [
    | inl missing ↦ rw (missing, try_candidate) (record { called = inl refl; sound = λ h. h })
    | inr (name, there) ↦ elim (Option-cases (get name run.breakers)) [
      | inl nameless ↦
          rw (there, try_candidate) (rw nameless (record { called = inl refl; sound = λ h. h }))
      | inr (b, found) ↦
          rw (there, try_candidate) (rw found (try_breaker-Tried first c name b a run found))
    ]
  ]

  extend :
      (c : Candidate) (cs : List Candidate) (run mid out : Run) (step : Step)
      → Tried c max_tokens run (mid, step)
      → Tries max_tokens cs mid out
      → Tries max_tokens (c ∷ cs) run out
  extend c cs run mid out step t rest = elim t.called [
    | inl none_made ↦ record {
      calls = rest.calls;
      called = rw (rest.called, none_made) refl;
      within = miss c rest.within;
      sound = λ h. rest.sound (t.sound h);
    }
    | inr one_made ↦ record {
      calls = record { candidate = c; max_tokens = max_tokens } ∷ rest.calls;
      called = rw (rest.called, one_made) (append_assoc run.calls _ rest.calls);
      within = made c rest.within;
      sound = λ h. rest.sound (t.sound h);
    }
  ]

  nothing_tried : (cs : List Candidate) (run : Run) → Tries max_tokens cs run run
  nothing_tried cs run = record {
    calls = [];
    called = sym (append-nil run.calls);
    within = stop cs;
    sound = λ h. h;
  }

  try_all-Tries :
      (first : Bool) (cs : List Candidate) (world : ℕ → Attempt) (i : ℕ) (run : Run)
      → Tries max_tokens cs run (try_all router task max_tokens first cs world i run).0
  unfolding try_all
  try_all-Tries first [] world i run = nothing_tried [] run
  try_all-Tries first (c ∷ cs) world i run =
      go (try_candidate router task max_tokens first c (world i) run).0
        (try_candidate router task max_tokens first c (world i) run).1
        (try_candidate-Tried first c (world i) run)
        (try_all-Tries false cs world (suc i)
          (try_candidate router task max_tokens first c (world i) run).0)
    where
      go :
          (mid : Run) (step : Step)
          → Tried c max_tokens run (mid, step)
          → Tries max_tokens cs mid (try_all router task max_tokens false cs world (suc i) mid).0
          → Tries max_tokens
              (c ∷ cs)
              run
              (proceed
                (mid, step)
                (λ run'. try_all router task max_tokens false cs world (suc i) run')).0
      go mid skip t rest = extend c cs run mid _ skip t rest
      go mid (done o) t rest = extend c cs run mid mid (done o) t (nothing_tried cs mid)

All-Taken :
    (max_tokens : ℕ) (P : Candidate → Type 0) {cs : List Candidate} {calls : List Call}
    → Taken max_tokens cs calls
    → All P cs
    → All (λ call. P call.candidate) calls
All-Taken n P (stop cs) h = tt
All-Taken n P (miss c t) h = All-Taken n P t h.1
All-Taken n P (made c t) h = (h.0, All-Taken n P t h.1)

length-Taken :
    (max_tokens : ℕ) {cs : List Candidate} {calls : List Call}
    → Taken max_tokens cs calls
    → length calls ≤ length cs
length-Taken n (stop cs) = omega arith
length-Taken n (miss c {cs = cs} {calls = calls} t) = omega (arith, length-Taken n t)
length-Taken n (made c {cs = cs} {calls = calls} t) = omega (arith, length-Taken n t)

complete-Tries :
    (router : Router) (task : String) (spec : TaskSpec) (excluded : Option String)
    (max_tokens : Option ℕ) (world : ℕ → Attempt)
    → get task router.config.tasks ≡ some spec
    → Tries
        (get_or max_tokens spec.max_tokens)
        (allowed excluded (candidates_of spec))
        (start router)
        (complete router task excluded max_tokens world).0
unfolding complete
complete-Tries router task spec excluded max_tokens world found =
    rw (found, complete)
      (try_all-Tries router task (get_or max_tokens spec.max_tokens) true
        (allowed excluded (candidates_of spec)) world 0 (start router))

keep-All :
    (excluded : String) (cs : List Candidate)
    → All (λ c. c.provider ≢ excluded) (keep (λ c. not (str_eq c.provider excluded)) cs)
keep-All excluded [] = tt
keep-All excluded (c ∷ cs) = elim (Bool-cases (str_eq c.provider excluded)) [
  | inl same ↦ rw same (keep-All excluded cs)
  | inr other ↦
      rw other
        ((λ e. ground (arith, other, (eq_iff c.provider excluded).1 e)), keep-All excluded cs)
]

length-keep : {A : Type 0} (p : A → Bool) (xs : List A) → length (keep p xs) ≤ length xs
length-keep p [] = omega arith
length-keep p (x ∷ xs) = ground (arith, length-keep p xs)

length-candidates_of : (spec : TaskSpec) → length (candidates_of spec) ≤ 2
length-candidates_of spec = ground arith

-- An excluded provider is never called: not first, not as the failover, and not when every other
-- one is down. Two calls are made at most.
pub complete-excludes :
    (router : Router) (task excluded : String) (spec : TaskSpec) (max_tokens : Option ℕ)
    (world : ℕ → Attempt)
    → get task router.config.tasks ≡ some spec
    → All
        (λ call. call.candidate.provider ≢ excluded)
        (complete router task (some excluded) max_tokens world).0.calls
      × (length (complete router task (some excluded) max_tokens world).0.calls ≤ 2)
unfolding start
complete-excludes router task excluded spec max_tokens world found =
    let t = complete-Tries router task spec (some excluded) max_tokens world found in
    let n = get_or max_tokens spec.max_tokens in
    rw t.called (
      All-Taken n (λ c. c.provider ≢ excluded) t.within (keep-All excluded (candidates_of spec)),
      omega (
        arith,
        length-Taken n t.within,
        length-keep (λ c. not (str_eq c.provider excluded)) (candidates_of spec),
        length-candidates_of spec,
      ),
    )

-- Whatever the providers reply and whenever, a completion leaves every breaker sound: open only if
-- its failures reached the threshold, and shut only if they did not.
pub complete-IsSound :
    (router : Router) (task : String) (excluded : Option String) (max_tokens : Option ℕ)
    (world : ℕ → Attempt)
    → AllValues IsSound router.breakers
    → AllValues IsSound (complete router task excluded max_tokens world).0.breakers
unfolding start
complete-IsSound router task excluded max_tokens world h =
    elim (Option-cases (get task router.config.tasks)) [
      | inl unknown ↦ unfold complete in rw (unknown, complete) h
      | inr (spec, found) ↦
          (complete-Tries router task spec excluded max_tokens world found).sound h
    ]
