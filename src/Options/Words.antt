-- ===== src/Options/Words.antt =====
-- The command line is read from left to right, and a value may stand in its letter's argument or in
-- the next.
use lingx.Base.{
  ℕ, ◌≡◌, refl, sym, ap, ◌∙◌, inl, inr, Option, none, some, List, [], ◌∷◌, ◌++◌, Option-cases,
}
use lingx.Options.{
  at_error, Options, Field, Result, parsed, refused, set_flag, field_of, set_field, Scan, ended,
  at_field, on_letter, scan_letters, scan_argument, Rest, and_then, after_scan, get_options,
}

and_then-parsed :
    (next other : Rest) (r : Result) (o' : Options) (t : Result)
    → ((o : Options) → next o ≡ parsed o' → other o ≡ t)
    → and_then next r ≡ parsed o'
    → and_then other r ≡ t
unfolding and_then
and_then-parsed next other (parsed o) o' t h e = h o e
and_then-parsed next other (refused x) o' t h e = cc e

after_scan-last :
    (next other : Rest) (value : Option (List ℕ × Rest)) (s : Scan) (o' : Options) (t : Result)
    → ((o : Options) → next o ≡ parsed o' → other o ≡ t)
    → after_scan next none s ≡ parsed o'
    → after_scan other value s ≡ t
unfolding after_scan
after_scan-last next other value (ended o) o' t h e = h o e
after_scan-last next other value (at_error x) o' t h e = cc e
after_scan-last next other value (at_field f (c ∷ p) o) o' t h e =
    and_then-parsed next other (set_field f (c ∷ p) o) o' t h e
after_scan-last next other value (at_field f [] o) o' t h e = cc e

after_scan-more :
    (next other behind later : Rest) (v : List ℕ) (s : Scan) (o' : Options) (t : Result)
    → ((o : Options) → next o ≡ parsed o' → other o ≡ t)
    → ((o : Options) → behind o ≡ parsed o' → later o ≡ t)
    → after_scan next (some (v, behind)) s ≡ parsed o'
    → after_scan other (some (v, later)) s ≡ t
unfolding after_scan
after_scan-more next other behind later v (ended o) o' t h k e = h o e
after_scan-more next other behind later v (at_error x) o' t h k e = cc e
after_scan-more next other behind later v (at_field f (c ∷ p) o) o' t h k e =
    and_then-parsed next other (set_field f (c ∷ p) o) o' t h e
after_scan-more next other behind later v (at_field f [] o) o' t h k e =
    and_then-parsed behind later (set_field f v o) o' t k e

parsed-injective : (o o' : Options) → parsed o ≡ parsed o' → o ≡ o'
parsed-injective o o' e =
    ap (λ (r : Result). elim r as (λ _. Options) [ parsed q ↦ q | refused x ↦ o ]) e

-- If the arguments `xs` are accepted by themselves, then any arguments behind them are read as they
-- would be from the options that `xs` leave, with the same result or error.
pub get_options-append :
    (xs ys : List (List ℕ)) (o o' : Options)
    → get_options xs o ≡ parsed o'
    → get_options (xs ++ ys) o ≡ get_options ys o'
unfolding get_options
get_options-append [] ys o o' e = ap (get_options ys) (parsed-injective o o' e)
get_options-append (a ∷ []) [] o o' e = e
get_options-append (a ∷ []) (y ∷ ys) o o' e =
    after_scan-last parsed (get_options (y ∷ ys)) (some (y, get_options ys)) (scan_argument a o) o'
      (get_options (y ∷ ys) o') (λ q h. ap (get_options (y ∷ ys)) (parsed-injective q o' h)) e
get_options-append (a ∷ v ∷ xs) ys o o' e =
    after_scan-more (get_options (v ∷ xs)) (get_options (v ∷ xs ++ ys)) (get_options xs)
      (get_options (xs ++ ys)) v (scan_argument a o) o' (get_options ys o')
      (λ q h. get_options-append (v ∷ xs) ys q o' h) (λ q h. get_options-append xs ys q o' h) e

ended-injective : (o o' : Options) → ended o ≡ ended o' → o ≡ o'
ended-injective o o' e =
    ap
      (λ (s : Scan). elim s as (λ _. Options) [ ended q ↦ q | at_field f p q ↦ o | at_error x ↦ o ])
      e

scan_nil : {o : Options} → scan_letters [] o ≡ ended o
unfolding scan_letters
scan_nil = refl

scan_letters_cons :
    (c : ℕ) (p : List ℕ) (o : Options) (q : Option Options) (f : Option Field)
    → set_flag c o ≡ q
    → field_of c ≡ f
    → scan_letters (c ∷ p) o ≡ on_letter c p o (scan_letters p) q f
unfolding scan_letters
scan_letters_cons c p o q f s h =
    ap (λ a. on_letter c p o (scan_letters p) a (field_of c)) s
    ∙ ap (on_letter c p o (scan_letters p) q) h

scan_letters-flags :
    (flags : List ℕ) (letter : ℕ) (p : List ℕ) (f : Field) (o o' : Options)
    → scan_letters flags o ≡ ended o'
    → set_flag letter o' ≡ none
    → field_of letter ≡ some f
    → scan_letters (flags ++ letter ∷ p) o ≡ at_field f p o'
unfolding on_letter
scan_letters-flags [] letter p f o o' e k g =
    rw (ended-injective o o' (sym scan_nil ∙ e)) (scan_letters_cons letter p o' none (some f) k g)
scan_letters-flags (x ∷ flags) letter p f o o' e k g = elim (Option-cases (set_flag x o)) [
  | inr (q, s) ↦
      scan_letters_cons x (flags ++ letter ∷ p) o (some q) (field_of x) s refl
      ∙ scan_letters-flags flags letter p f q o'
          (sym (scan_letters_cons x flags o (some q) (field_of x) s refl) ∙ e) k g
  | inl s ↦ elim (Option-cases (field_of x)) [
    | inl h ↦ let b = sym (scan_letters_cons x flags o none none s h) ∙ e in absurd (cc b)
    | inr (r, h) ↦ let b = sym (scan_letters_cons x flags o none (some r) s h) ∙ e in absurd (cc b)
  ]
]

module _ (flags : List ℕ) (letter : ℕ) (f : Field) (o o' : Options)
    (e : scan_letters flags o ≡ ended o') (k : set_flag letter o' ≡ none)
    (g : field_of letter ≡ some f) (next : Rest) where
  value_behind :
      (value : Option (List ℕ × Rest)) (c : ℕ) (v : List ℕ)
      → after_scan next value (scan_argument (45 ∷ flags ++ letter ∷ c ∷ v) o)
        ≡ and_then next (set_field f (c ∷ v) o')
  unfolding after_scan scan_argument
  value_behind value c v =
      ap (after_scan next value) (scan_letters-flags flags letter (c ∷ v) f o o' e k g)

  value_next :
      (behind : Rest) (v : List ℕ)
      → after_scan next (some (v, behind)) (scan_argument (45 ∷ flags ++ letter ∷ []) o)
        ≡ and_then behind (set_field f v o')
  unfolding after_scan scan_argument
  value_next behind v =
      ap (after_scan next (some (v, behind))) (scan_letters-flags flags letter [] f o o' e k g)

-- A value that is not empty may be written behind its letter, or as the next argument: `-p/srv` is
-- `-p /srv`, whatever follows and whatever flags stand before the letter in the same argument.
pub get_options_glued :
    (flags : List ℕ) (letter c : ℕ) (v : List ℕ) (rest : List (List ℕ)) (f : Field) (o o' : Options)
    → scan_letters flags o ≡ ended o'
    → set_flag letter o' ≡ none
    → field_of letter ≡ some f
    → get_options ((45 ∷ flags ++ letter ∷ c ∷ v) ∷ rest) o
      ≡ get_options ((45 ∷ flags ++ letter ∷ []) ∷ (c ∷ v) ∷ rest) o
unfolding get_options
get_options_glued flags letter c v [] f o o' e k g =
    value_behind flags letter f o o' e k g parsed none c v
    ∙ sym (value_next flags letter f o o' e k g (get_options ((c ∷ v) ∷ [])) parsed (c ∷ v))
get_options_glued flags letter c v (y ∷ ys) f o o' e k g =
    value_behind flags letter f o o' e k g (get_options (y ∷ ys)) (some (y, get_options ys)) c v
    ∙ sym (
        value_next flags letter f o o' e k g (get_options ((c ∷ v) ∷ y ∷ ys)) (get_options (y ∷ ys))
          (c ∷ v))
