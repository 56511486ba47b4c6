-- ===== src/Namespaces/Parser/Tokens.antt =====
-- `tokenizeText` of internal/services/namespaces/parser.go reads a list of names back.
use kubepeep.Base.{
  ℕ, ◌≡◌, refl, ap, ◌∙◌, Bool, true, false, not, ◌&&◌, List, [], ◌∷◌, ◌++◌, arith, ◌==◌, all_of,
  All,
}
use kubepeep.Namespaces.Parser.{
  Text, is_empty, trim_left, trim_right, trim, is_structural, is_blank, push_first, split_by,
  drop_empty, fields, normalize_lines, segment_items, all_items, tokenize_text,
}

-- A character that ends no name.
abbrev pub is_plain : ℕ → Bool
is_plain c = not (is_structural c) && not (is_blank c) && not (c == 13)

abbrev pub IsPlain : Text → Type 0
IsPlain s = (all_of is_plain s ≡ true) × (is_empty s ≡ false)

abbrev pub join_commas : List Text → Text
join_commas [] = []
join_commas (name ∷ []) = name
join_commas (name ∷ other ∷ names) = name ++ b',' ∷ join_commas (other ∷ names)

abbrev is_joined : ℕ → Bool
is_joined c = not (is_blank c) && not (c == 13)

all_of-append :
    (p : ℕ → Bool) (s t : Text) → all_of p s ≡ true → all_of p t ≡ true → all_of p (s ++ t) ≡ true
all_of-append p [] t h k = k
all_of-append p (c ∷ s) t h k = ground (arith, h, all_of-append p s t (ground (arith, h)) k)

not_return : (c : ℕ) (s : Text) → all_of is_joined (c ∷ s) ≡ true → (c == 13) ≡ false
not_return c s h = ground (arith, h)

all_of-tail : (p : ℕ → Bool) (c : ℕ) (s : Text) → all_of p (c ∷ s) ≡ true → all_of p s ≡ true
all_of-tail p c s h = ground (arith, h)

normalize_plain : (s : Text) → all_of is_joined s ≡ true → normalize_lines s ≡ s
unfolding normalize_lines
normalize_plain [] h = refl
normalize_plain (c ∷ []) h = rw (not_return c [] h) refl
normalize_plain (c ∷ d ∷ s) h =
    rw (not_return c (d ∷ s) h)
      (ap (◌∷◌ c) (normalize_plain (d ∷ s) (all_of-tail is_joined c (d ∷ s) h)))

split_last : (p : ℕ → Bool) (s : Text) → all_of (λ c. not (p c)) s ≡ true → split_by p s ≡ s ∷ []
unfolding split_by push_first
split_last p [] h = refl
split_last p (c ∷ s) h = ground (arith, h, split_last p s)

split_first :
    (p : ℕ → Bool) (s : Text) (d : ℕ) (t : Text)
    → all_of (λ c. not (p c)) s ≡ true
    → p d ≡ true
    → split_by p (s ++ d ∷ t) ≡ s ∷ split_by p t
unfolding split_by push_first
split_first p [] d t h k = ground (arith, k)
split_first p (c ∷ s) d t h k = ground (arith, h, split_first p s d t)

not_blank : (c : ℕ) (s : Text) → all_of is_plain (c ∷ s) ≡ true → is_blank c ≡ false
not_blank c s h = ground (arith, h)

trim_right_plain : (s : Text) → all_of is_plain s ≡ true → trim_right is_blank s ≡ s
unfolding trim_right
trim_right_plain [] h = refl
trim_right_plain (c ∷ s) h =
    rw (not_blank c s h) (ap (◌∷◌ c) (trim_right_plain s (all_of-tail is_plain c s h)))

trim_plain : (s : Text) → all_of is_plain s ≡ true → trim is_blank s ≡ s
unfolding trim trim_left
trim_plain [] h = trim_right_plain [] h
trim_plain (c ∷ s) h = rw (not_blank c s h) (trim_right_plain (c ∷ s) h)

all_of-weaken :
    (p q : ℕ → Bool)
    → ((c : ℕ) → p c ≡ true → q c ≡ true)
    → (s : Text) → all_of p s ≡ true
    → all_of q s ≡ true
all_of-weaken p q w [] h = refl
all_of-weaken p q w (c ∷ s) h = ground (arith, h, w c, all_of-weaken p q w s)

segment_items_plain : (s : Text) → IsPlain s → segment_items s ≡ s ∷ []
unfolding segment_items fields drop_empty
segment_items_plain s (h, n) =
    let split =
      split_last is_blank s
        (all_of-weaken is_plain (λ c. not (is_blank c)) (λ c q. ground (arith, q)) s h) in
    rw (trim_plain s h, n, split, n) refl

split_join :
    (name : Text) (names : List Text)
    → All IsPlain (name ∷ names)
    → split_by is_structural (join_commas (name ∷ names)) ≡ name ∷ names
split_join name [] h =
    split_last is_structural name
      (all_of-weaken is_plain (λ c. not (is_structural c)) (λ c q. ground (arith, q)) name h.0.0)
split_join name (other ∷ names) h =
    split_first is_structural name b',' (join_commas (other ∷ names))
      (all_of-weaken is_plain (λ c. not (is_structural c)) (λ c q. ground (arith, q)) name h.0.0)
      refl
    ∙ ap (◌∷◌ name) (split_join other names h.1)

join_plain : (names : List Text) → All IsPlain names → all_of is_joined (join_commas names) ≡ true
join_plain [] h = refl
join_plain (name ∷ []) h = all_of-weaken is_plain is_joined (λ c q. ground (arith, q)) name h.0.0
join_plain (name ∷ other ∷ names) h =
    all_of-append is_joined name (b',' ∷ join_commas (other ∷ names))
      (all_of-weaken is_plain is_joined (λ c q. ground (arith, q)) name h.0.0)
      (join_plain (other ∷ names) h.1)

all_items_plain : (names : List Text) → All IsPlain names → all_items names ≡ names
unfolding all_items
all_items_plain [] h = refl
all_items_plain (name ∷ names) h = rw (segment_items_plain name h.0, all_items_plain names h.1) refl

-- Names that are joined by commas are read back, whatever they are, as long as none is empty or holds
-- a separator, a blank or a line end.
pub tokenize_text-join_commas :
    (name : Text) (names : List Text)
    → All IsPlain (name ∷ names)
    → tokenize_text (join_commas (name ∷ names)) ≡ name ∷ names
unfolding tokenize_text
tokenize_text-join_commas name names h =
    ap (λ s. all_items (split_by is_structural s))
      (normalize_plain (join_commas (name ∷ names)) (join_plain (name ∷ names) h))
    ∙ ap all_items (split_join name names h)
    ∙ all_items_plain (name ∷ names) h
