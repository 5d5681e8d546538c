-- ===== src/Dict.antt =====
-- Python's `dict` with string keys, as an association list in insertion order, and the laws of
-- reading it after each operation. `contains` is `x in xs` for a sequence of strings.
use mathlib.Core.Path.{subst}
use moreofchat.Prelude.{
  Bool-cases, inl, inr, String, str_eq, eq_iff, ◌≡◌, refl, Bool, false, ◌||◌, Option, none, some,
  List, [], ◌∷◌, ◌++◌, arith, if◌then◌else◌, is_some, or_else, get_or,
}

unfoldable pub contains : String → List String → Bool
contains s [] = false
contains s (x ∷ xs) = str_eq x s || contains s xs

pub contains-append :
    (k : String) (xs ys : List String) → contains k (xs ++ ys) ≡ (contains k xs || contains k ys)
unfolding contains
contains-append k [] ys = refl
contains-append k (x ∷ xs) ys = ground (arith, contains-append k xs ys)

abbrev pub Dict {ℓ} : Type ℓ → Type ℓ
Dict V = List (String × V)

module _ {ℓ} {V : Type ℓ} where
  -- `d.get(k)`
  unfoldable pub get : String → Dict V → Option V
  get k [] = none
  get k ((j, v) ∷ m) = if str_eq j k then some v else get k m

  abbrev pub has_key : String → Dict V → Bool
  has_key k m = is_some (get k m)

  abbrev pub keys : Dict V → List String
  keys [] = []
  keys ((k, v) ∷ m) = k ∷ keys m

  -- `d[k] = v`: the value in place, or a new entry at the end.
  unfoldable pub put : String → V → Dict V → Dict V
  put k v [] = (k, v) ∷ []
  put k v ((j, w) ∷ m) = if str_eq j k then (k, v) ∷ m else (j, w) ∷ put k v m

  -- `{k: v for k, v in d.items() if k not in ks}`
  unfoldable pub without : List String → Dict V → Dict V
  unfolding contains
  without ks [] = []
  without ks ((j, v) ∷ m) = let rest = without ks m in if contains j ks then rest else (j, v) ∷ rest

  override : Dict V → Dict V → Dict V
  override new [] = []
  override new ((j, v) ∷ m) = (j, get_or (get j new) v) ∷ override new m

  -- `{**held, **new}`: values of `new` in the places of `held`, then its other entries.
  unfoldable pub merge : Dict V → Dict V → Dict V
  unfolding override without get
  merge held new = override new held ++ without (keys held) new

  pub get-put :
      (k j : String) (v : V) (m : Dict V)
      → get j (put k v m) ≡ (if str_eq k j then some v else get j m)
  unfolding get put
  get-put k j v [] = refl
  get-put k j v ((i, w) ∷ m) = ground (arith, eq_iff k j, eq_iff i k, eq_iff i j, get-put k j v m)

  pub get-without :
      (ks : List String) (j : String) (m : Dict V)
      → get j (without ks m) ≡ (if contains j ks then none else get j m)
  unfolding get without
  get-without ks j [] = ground arith
  get-without ks j ((i, v) ∷ m) = ground (arith, eq_iff i j, get-without ks j m)

  get-override :
      (new m : Dict V) (j : String)
      → get j (override new m)
        ≡ elim (get j m) [ none ↦ none | some v ↦ some (get_or (get j new) v) ]
  unfolding get override
  get-override new [] j = refl
  get-override new ((i, v) ∷ m) j = ground (arith, eq_iff i j, get-override new m j)

  contains-keys : (j : String) (m : Dict V) → contains j (keys m) ≡ has_key j m
  unfolding contains get
  contains-keys j [] = refl
  contains-keys j ((i, v) ∷ m) = ground (arith, contains-keys j m)

  pub get-append : (j : String) (a b : Dict V) → get j (a ++ b) ≡ or_else (get j a) (get j b)
  unfolding get
  get-append j [] b = refl
  get-append j ((i, v) ∷ a) b = ground (arith, get-append j a b)

  pub get-merge :
      (j : String) (held new : Dict V) → get j (merge held new) ≡ or_else (get j new) (get j held)
  unfolding merge
  get-merge j held new = ground (
    arith,
    get-append j (override new held) (without (keys held) new),
    get-override new held j,
    get-without (keys held) j new,
    contains-keys j held,
  )

-- A predicate of every entry's value, and how it is read and written.
module _ {ℓ κ} {V : Type ℓ} (P : V → Type κ) where
  abbrev pub AllValues : Dict V → Type κ
  AllValues [] = Unit
  AllValues ((k, v) ∷ m) = P v × AllValues m

  pub AllValues-get : (k : String) (m : Dict V) (v : V) → AllValues m → get k m ≡ some v → P v
  unfolding get
  AllValues-get k [] v h found = absurd (ground (arith, found))
  AllValues-get k ((j, w) ∷ m) v h found = elim (Bool-cases (str_eq j k)) [
    | inl same ↦ let e : w ≡ v = ground (arith, found, same) in subst P e h.0
    | inr other ↦ AllValues-get k m v h.1 (ground (arith, found, other))
  ]

  pub AllValues-put : (k : String) (v : V) (m : Dict V) → P v → AllValues m → AllValues (put k v m)
  unfolding put
  AllValues-put k v [] p h = (p, tt)
  AllValues-put k v ((j, w) ∷ m) p h = elim (Bool-cases (str_eq j k)) [
    | inl same ↦ rw same (p, h.1)
    | inr other ↦ rw other (h.0, AllValues-put k v m p h.1)
  ]
