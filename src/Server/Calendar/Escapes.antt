-- ===== src/Server/Calendar/Escapes.antt =====
-- The escapes of a text value: `escapeICS` replaces four characters one after the other.
use starbies_schedule_sync.Base.{
  ℕ, ◌==◌, ◌≡◌, refl, sym, ap, ◌∙◌, Bool, true, false, not, ◌&&◌, ◌||◌, Bool-cases, inl, inr, [],
  ◌∷◌, ◌++◌, if◌then◌else◌, if_either, arith,
}
use mathlib.Core.List.{append_assoc}
use starbies_schedule_sync.Server.Calendar.{
  Text, backslash, comma, escape_ics, letter_n, line_feed, replace_all, semicolon,
}

-- One pass over the text
abbrev pub escape_char : ℕ → Text
escape_char c =
    if c == backslash
    then backslash ∷ backslash ∷ []
    else if c == semicolon
    then backslash ∷ semicolon ∷ []
    else if c == comma
    then backslash ∷ comma ∷ []
    else if c == line_feed
    then backslash ∷ letter_n ∷ []
    else c ∷ []

unfoldable pub escape : Text → Text
escape [] = []
escape (c ∷ s) = escape_char c ++ escape s

-- The letter N
abbrev capital_n : ℕ
capital_n = 78

abbrev emit : Bool → ℕ → Text
emit true c = (if c == letter_n || c == capital_n then line_feed else c) ∷ []
emit false c = if c == backslash then [] else c ∷ []

-- How RFC 5545 reads a text: `unescape true` after a backslash.
unfoldable pub unescape : Bool → Text → Text
unescape after [] = []
unescape after (c ∷ s) = emit after c ++ unescape (not after && c == backslash) s

replace_all-append :
    (old : ℕ) (new s t : Text)
    → replace_all old new (s ++ t) ≡ replace_all old new s ++ replace_all old new t
unfolding replace_all
replace_all-append old new [] t = refl
replace_all-append old new (c ∷ s) t =
    ap (λ r. (if c == old then new else c ∷ []) ++ r) (replace_all-append old new s t)
    ∙ sym (
        append_assoc (if c == old then new else c ∷ []) (replace_all old new s)
          (replace_all old new t))

escape_ics-append : (s t : Text) → escape_ics (s ++ t) ≡ escape_ics s ++ escape_ics t
unfolding escape_ics
escape_ics-append s t =
    rw
      (
        replace_all-append backslash (backslash ∷ backslash ∷ []) s t,
        replace_all-append semicolon (backslash ∷ semicolon ∷ []),
        replace_all-append comma (backslash ∷ comma ∷ []),
        replace_all-append line_feed (backslash ∷ letter_n ∷ []),
      )
      refl

escape_ics-char : (c : ℕ) → escape_ics (c ∷ []) ≡ escape_char c
unfolding escape_ics replace_all
escape_ics-char c = elim (Bool-cases (c == backslash)) [
  | inl e ↦ rw e refl
  | inr e ↦ rw e elim (Bool-cases (c == semicolon)) [
    | inl f ↦ rw f refl
    | inr f ↦ rw f elim (Bool-cases (c == comma)) [
      | inl g ↦ rw g refl
      | inr g ↦ rw g (if_either (λ (b : Text). b ++ [] ≡ b) (c == line_feed) refl refl)
    ]
  ]
]

-- The four replacements, one after the other, do not meddle with each other: they are the same as
-- one pass over the text.
pub escape_ics-eq : (s : Text) → escape_ics s ≡ escape s
unfolding escape escape_ics replace_all
escape_ics-eq [] = refl
escape_ics-eq (c ∷ s) =
    escape_ics-append (c ∷ []) s
    ∙ ap (λ t. t ++ escape_ics s) (escape_ics-char c)
    ∙ ap (λ t. escape_char c ++ t) (escape_ics-eq s)

unescape-escape_char :
    (c : ℕ) (t : Text) → unescape false (escape_char c ++ t) ≡ c ∷ unescape false t
unfolding unescape
unescape-escape_char c t = ground arith

unescape-escape : (s : Text) → unescape false (escape s) ≡ s
unfolding escape unescape
unescape-escape [] = refl
unescape-escape (c ∷ s) = unescape-escape_char c (escape s) ∙ ap (λ t. c ∷ t) (unescape-escape s)

pub unescape-escape_ics : (s : Text) → unescape false (escape_ics s) ≡ s
unescape-escape_ics s = ap (unescape false) (escape_ics-eq s) ∙ unescape-escape s

abbrev pub has : ℕ → Text → Bool
has c [] = false
has c (d ∷ s) = d == c || has c s

pub has-append : (c : ℕ) (s t : Text) → has c s ≡ false → has c t ≡ false → has c (s ++ t) ≡ false
has-append c [] t h k = k
has-append c (d ∷ s) t h k = ground (arith, has-append c s t)

has-escape : (s : Text) → has line_feed (escape s) ≡ false
unfolding escape
has-escape [] = refl
has-escape (c ∷ s) = has-append line_feed (escape_char c) (escape s) (ground arith) (has-escape s)

pub has-escape_ics : (s : Text) → has line_feed (escape_ics s) ≡ false
has-escape_ics s = ap (has line_feed) (escape_ics-eq s) ∙ has-escape s
