-- ===== src/Arabic/Numerals/Grouping.antt =====
-- A number printed in groups of thousands is read as the number (src/moc/arabic/numerals.py).
use moreofchat.Prelude.{
  ℕ, ◌≡◌, refl, sym, ap, ◌∙◌, true, false, some, List, [], ◌∷◌, ◌++◌, ◌==◌, if◌then◌else◌, keep,
  all, is_empty, length, concat, reverse, reverse-append, reverse-reverse, All, append_assoc,
  append-nil,
}
use Prim.{tt}
use moreofchat.Str.{Text, contains_char, drop_while, split_at, push_char}
use moreofchat.Arabic.Numerals.{Lexicon, Unicode}
use moreofchat.Arabic.Numerals.Parse.{
  rstrip_of, whole, is_grouped, from_groups, parse_body, parse_number,
}

-- The head, and each group after its separator.
abbrev pub print_groups : ℕ → Text → List Text → Text
print_groups mark head [] = head
print_groups mark head (g ∷ groups) = head ++ (mark ∷ print_groups mark g groups)

module _ (u : Unicode) (lex : Lexicon) where
  abbrev pub IsPlain : Text → Type 0
  IsPlain s = All (λ (c : ℕ). contains_char lex.separators c ≡ false) s

  split-plain :
      (s rest : Text) (piece : Text) (pieces : List Text)
      → IsPlain s
      → split_at (contains_char lex.separators) rest ≡ piece ∷ pieces
      → split_at (contains_char lex.separators) (s ++ rest) ≡ (s ++ piece) ∷ pieces
  unfolding split_at push_char
  split-plain [] rest piece pieces plain there = there
  split-plain (c ∷ s) rest piece pieces plain there =
      rw (plain.0, split-plain s rest piece pieces plain.1 there)

  split-mark :
      (mark : ℕ) (rest : Text)
      → contains_char lex.separators mark ≡ true
      → split_at (contains_char lex.separators) (mark ∷ rest)
        ≡ [] ∷ split_at (contains_char lex.separators) rest
  unfolding split_at
  split-mark mark rest is_mark = rw is_mark

  split-plain_only : (s : Text) → IsPlain s → split_at (contains_char lex.separators) s ≡ s ∷ []
  unfolding split_at push_char
  split-plain_only [] plain = refl
  split-plain_only (c ∷ s) plain = rw (plain.0, split-plain_only s plain.1)

  split-print_groups :
      (mark : ℕ) (head : Text) (groups : List Text)
      → contains_char lex.separators mark ≡ true
      → IsPlain head
      → All IsPlain groups
      → split_at (contains_char lex.separators) (print_groups mark head groups) ≡ head ∷ groups
  split-print_groups mark head [] is_mark plain plains = split-plain_only head plain
  split-print_groups mark head (g ∷ groups) is_mark plain plains =
      split-plain head (mark ∷ print_groups mark g groups) [] (g ∷ groups) plain (
        split-mark mark (print_groups mark g groups) is_mark
        ∙ ap (λ p. [] ∷ p) (split-print_groups mark g groups is_mark plains.0 plains.1))
      ∙ ap (λ h. h ∷ (g ∷ groups)) (append-nil head)

  abbrev IsMarkList : ℕ → Text → Type 0
  IsMarkList mark found = All (λ (c : ℕ). c ≡ mark) found

  keep-plain :
      (s rest : Text)
      → IsPlain s
      → keep (contains_char lex.separators) (s ++ rest) ≡ keep (contains_char lex.separators) rest
  keep-plain [] rest plain = refl
  keep-plain (c ∷ s) rest plain = rw plain.0 (keep-plain s rest plain.1)

  keep-print_groups :
      (mark : ℕ) (head : Text) (groups : List Text)
      → contains_char lex.separators mark ≡ true
      → contains_char lex.thousands mark ≡ true
      → IsPlain head
      → All IsPlain groups
      → (all
            (contains_char lex.thousands)
            (keep (contains_char lex.separators) (print_groups mark head groups))
          ≡ true)
        × (is_empty (keep (contains_char lex.separators) (print_groups mark head groups))
            ≡ is_empty groups)
  keep-print_groups mark head [] is_mark groups_by plain plains =
      let none_kept =
        ap (keep (contains_char lex.separators)) (sym (append-nil head))
        ∙ keep-plain head [] plain in
      (ap (all (contains_char lex.thousands)) none_kept, ap is_empty none_kept)
  keep-print_groups mark head (g ∷ groups) is_mark groups_by plain plains =
      let rest = keep-print_groups mark g groups is_mark groups_by plains.0 plains.1 in
      rw (keep-plain head (mark ∷ print_groups mark g groups) plain, is_mark, groups_by)
        (rest.0, refl)

  -- The text ends in a character that is no separator.
  abbrev EndsPlain : Text → Type 0
  EndsPlain s =
      (front : Text) × (c : ℕ) × (s ≡ front ++ (c ∷ [])) × (contains_char lex.separators c ≡ false)

  ends-plain : (s : Text) → is_empty s ≡ false → IsPlain s → EndsPlain s
  ends-plain [] filled plain = cc
  ends-plain (c ∷ []) filled plain = ([], c, refl, plain.0)
  ends-plain (c ∷ (d ∷ s)) filled plain =
      let rest = ends-plain (d ∷ s) refl plain.1 in
      (c ∷ rest.0, rest.1, ap (λ t. c ∷ t) rest.2, rest.3)

  EndsPlain-append : (front s : Text) → EndsPlain s → EndsPlain (front ++ s)
  EndsPlain-append front s ends = (
    front ++ ends.0,
    ends.1,
    ap (λ t. front ++ t) ends.2 ∙ sym (append_assoc front ends.0 (ends.1 ∷ [])),
    ends.3,
  )

  abbrev AreGroups : List Text → Type 0
  AreGroups groups = All (λ (g : Text). (is_empty g ≡ false) × IsPlain g) groups

  EndsPlain-print_groups :
      (mark : ℕ) (head : Text) (groups : List Text)
      → is_empty head ≡ false
      → IsPlain head
      → AreGroups groups
      → EndsPlain (print_groups mark head groups)
  EndsPlain-print_groups mark head [] filled plain rest = ends-plain head filled plain
  EndsPlain-print_groups mark head (g ∷ groups) filled plain rest =
      EndsPlain-append head (mark ∷ print_groups mark g groups) (
        EndsPlain-append (mark ∷ []) (print_groups mark g groups)
          (EndsPlain-print_groups mark g groups rest.0.0 rest.0.1 rest.1))

  rstrip-EndsPlain : (s : Text) → EndsPlain s → rstrip_of lex.separators s ≡ s
  unfolding rstrip_of drop_while
  rstrip-EndsPlain s ends =
      let turned : reverse s ≡ ends.1 ∷ reverse ends.0 =
        ap reverse ends.2 ∙ reverse-append ends.0 (ends.1 ∷ []) in
      let kept : drop_while (contains_char lex.separators) (ends.1 ∷ reverse ends.0)
          ≡ ends.1 ∷ reverse ends.0 =
        ap
          (λ b.
            if b
            then drop_while (contains_char lex.separators) (reverse ends.0)
            else ends.1 ∷ reverse ends.0)
          ends.3 in
      ap (λ t. reverse (drop_while (contains_char lex.separators) t)) turned
      ∙ ap reverse kept
      ∙ ap reverse (sym turned)
      ∙ reverse-reverse s

  groups-IsPlain : (groups : List Text) → AreGroups groups → All IsPlain groups
  groups-IsPlain [] rest = tt
  groups-IsPlain (g ∷ groups) rest = (rest.0.1, groups-IsPlain groups rest.1)

  print_groups-filled :
      (mark : ℕ) (head : Text) (groups : List Text)
      → is_empty head ≡ false
      → is_empty (print_groups mark head groups) ≡ false
  print_groups-filled mark [] groups filled = cc
  print_groups-filled mark (c ∷ head) [] filled = refl
  print_groups-filled mark (c ∷ head) (g ∷ groups) filled = refl

  -- A number printed with a thousands separator between groups of the configured size is read as the
  -- number with the same digits and no separator, however many groups it has.
  pub parse_number-print_groups :
      (mark : ℕ) (head g : Text) (groups : List Text)
      → contains_char lex.separators mark ≡ true
      → contains_char lex.thousands mark ≡ true
      → is_empty head ≡ false
      → IsPlain head
      → AreGroups (g ∷ groups)
      → all (λ h. length h == lex.group_size) (g ∷ groups) ≡ true
      → parse_number u lex (print_groups mark head (g ∷ groups))
        ≡ some (whole u lex (head ++ concat (g ∷ groups)))
  unfolding parse_number parse_body from_groups is_grouped
  parse_number-print_groups mark head g groups is_mark groups_by filled plain rest sized =
      let plains = groups-IsPlain (g ∷ groups) rest in
      let found = keep-print_groups mark head (g ∷ groups) is_mark groups_by plain plains in
      rw (
        rstrip-EndsPlain (print_groups mark head (g ∷ groups))
            (EndsPlain-print_groups mark head (g ∷ groups) filled plain rest),
        print_groups-filled mark head (g ∷ groups) filled,
        found.1,
        split-print_groups mark head (g ∷ groups) is_mark plain plains,
        sized,
        found.0,
      )
