-- ===== src/Routing/Segments.antt =====
-- An alias is present if its words stand in the query, one after another.
use jvc_core.Base.{
  ℕ, ◌≡◌, ◌≢◌, ◌↔◌, refl, ◌∙◌, ap, inl, inr, Bool, true, false, not, ◌&&◌, ◌||◌, List, [], ◌∷◌,
  ◌++◌, map, Text, ◌==◌, eq_iff, eq_refl, casefold, split, cons_head, select, is_empty,
  strip_prefix, is_space, nat_eq, Bool-cases, arith, if◌then◌else◌,
}
use jvc_core.Routing.Words.{
  is_token, blank_code, words, spaced, join_words, normalize, occurs, present_from, alias_present,
}

-- A word has token characters only.
plain : Text → Bool
plain [] = true
plain (c ∷ s) = is_token c && plain s

all_plain : List Text → Bool
all_plain [] = true
all_plain (w ∷ ws) = plain w && all_plain ws

all_proper : List Text → Bool
all_proper [] = true
all_proper (w ∷ ws) = not (is_empty w) && all_proper ws

token_space : (c : ℕ) → is_token c ≡ true → is_space c ≡ false
unfolding is_space
token_space c k = ground arith

cons_head-plain :
    (c : ℕ) (ws : List Text)
    → is_token c ≡ true
    → all_plain ws ≡ true
    → all_plain (cons_head c ws) ≡ true
unfolding all_plain plain
cons_head-plain c [] t k = rw t refl
cons_head-plain c (w ∷ ws) t k = rw t k

token_ne_space : (c : ℕ) → is_token c ≡ true → nat_eq c 32 ≡ false
token_ne_space c k = ground arith

split-plain : (s : Text) → all_plain (split 32 (map blank_code s)) ≡ true
unfolding split plain all_plain
split-plain [] = refl
split-plain (c ∷ s) = elim (Bool-cases (is_token c)) [
  | inl t ↦ rw (t, token_ne_space c t) (cons_head-plain c _ t (split-plain s))
  | inr t ↦ rw t (split-plain s)
]

plain_head : (c : ℕ) (w : Text) → plain (c ∷ w) ≡ true → is_token c ≡ true
unfolding plain
plain_head c w k = ground arith

plain_tail : (c : ℕ) (w : Text) → plain (c ∷ w) ≡ true → plain w ≡ true
unfolding plain
plain_tail c w k = ground arith

select-plain :
    (ws : List Text) → all_plain ws ≡ true → all_plain (select (λ w. not (is_empty w)) ws) ≡ true
unfolding all_plain
select-plain [] k = refl
select-plain (w ∷ ws) k = ground (arith, select-plain ws)

select-proper : (ws : List Text) → all_proper (select (λ w. not (is_empty w)) ws) ≡ true
unfolding all_proper
select-proper [] = refl
select-proper (w ∷ ws) = ground (arith, select-proper ws)

words-plain : (s : Text) → all_plain (words s) ≡ true
unfolding words
words-plain s = select-plain _ (split-plain (casefold s))

words-proper : (s : Text) → all_proper (words s) ≡ true
unfolding words
words-proper s = select-proper (split 32 (map blank_code (casefold s)))

-- The words of a prefix.
words_prefix : List Text → List Text → Bool
words_prefix [] ws = true
words_prefix (a ∷ xs) [] = false
words_prefix (a ∷ xs) (w ∷ ws) = a == w && words_prefix xs ws

words_present : List Text → List Text → Bool
words_present xs [] = words_prefix xs []
words_present xs (w ∷ ws) = words_prefix xs (w ∷ ws) || words_present xs ws

occurs-word :
    (a : Text) (xs : List Text) (w : Text) (ws : List Text)
    → plain a ≡ true
    → plain w ≡ true
    → occurs (a ++ spaced xs) (w ++ spaced ws) ≡ (a == w && occurs (spaced xs) (spaced ws))
unfolding plain strip_prefix ◌==◌
occurs-word [] xs [] ws k l = refl
occurs-word [] [] (d ∷ w) ws k l = token_space d (plain_head d w l)
occurs-word [] (a ∷ xs) (d ∷ w) ws k l =
    let t = token_ne_space d (plain_head d w l) in ground (arith, t)
occurs-word (c ∷ a) xs [] [] k l = refl
occurs-word (c ∷ a) xs [] (v ∷ vs) k l =
    let t = token_ne_space c (plain_head c a k) in ground (arith, t)
occurs-word (c ∷ a) xs (d ∷ w) ws k l = elim (Bool-cases (nat_eq c d)) [
  | inl e ↦ rw e (occurs-word a xs w ws (plain_tail c a k) (plain_tail d w l))
  | inr e ↦ rw e refl
]

and_left : (a b : Bool) → (a && b) ≡ true → a ≡ true
and_left true b k = refl
and_left false b k = cc

and_right : (a b : Bool) → (a && b) ≡ true → b ≡ true
and_right true b k = k
and_right false b k = cc

occurs-words :
    (xs ws : List Text)
    → all_plain xs ≡ true
    → all_plain ws ≡ true
    → occurs (spaced xs) (spaced ws) ≡ words_prefix xs ws
unfolding all_plain words_prefix strip_prefix is_space
occurs-words [] [] k l = refl
occurs-words [] (w ∷ ws) k l = refl
occurs-words (x ∷ xs) [] k l = refl
occurs-words (x ∷ xs) (w ∷ ws) k l =
    occurs-word x xs w ws (and_left _ _ k) (and_left _ _ l)
    ∙ ap (λ v. x == w && v) (occurs-words xs ws (and_right _ _ k) (and_right _ _ l))

occurs-join :
    (x : Text) (xs : List Text) (w : Text) (ws : List Text)
    → all_plain (x ∷ xs) ≡ true
    → all_plain (w ∷ ws) ≡ true
    → occurs (x ++ spaced xs) (w ++ spaced ws) ≡ words_prefix (x ∷ xs) (w ∷ ws)
unfolding all_plain words_prefix
occurs-join x xs w ws k l =
    occurs-word x xs w ws (and_left _ _ k) (and_left _ _ l)
    ∙ ap (λ v. x == w && v) (occurs-words xs ws (and_right _ _ k) (and_right _ _ l))

-- Within a word nothing is found.
present_from-word :
    (alias w t : Text)
    → plain w ≡ true
    → present_from false alias (w ++ t) ≡ present_from false alias t
unfolding present_from
present_from-word alias [] t k = refl
present_from-word alias (c ∷ w) t k =
    rw (token_space c (plain_head c w k)) (present_from-word alias w t (plain_tail c w k))

present_from-nothing : (x t : Text) → is_empty x ≡ false → present_from true (x ++ t) [] ≡ false
unfolding present_from strip_prefix
present_from-nothing [] t n = cc
present_from-nothing (c ∷ x) t n = refl

module _ (x : Text) (xs : List Text) (k : all_plain (x ∷ xs) ≡ true) where
  present_from-spaced :
      (ws : List Text)
      → all_plain ws ≡ true
      → all_proper ws ≡ true
      → present_from false (x ++ spaced xs) (spaced ws) ≡ words_present (x ∷ xs) ws
  unfolding present_from all_plain all_proper words_present words_prefix is_space
  present_from-spaced [] l o = refl
  present_from-spaced ([] ∷ ws) l o = cc
  present_from-spaced ((d ∷ w) ∷ ws) l o =
      rw
        (
          token_space d (plain_head d w (and_left (plain (d ∷ w)) (all_plain ws) l)),
          present_from-word (x ++ spaced xs) w (spaced ws)
              (plain_tail d w (and_left (plain (d ∷ w)) (all_plain ws) l)),
          present_from-spaced ws (and_right (plain (d ∷ w)) (all_plain ws) l) o,
        )
        (ap (λ v. v || words_present (x ∷ xs) ws) (occurs-join x xs (d ∷ w) ws k l))

  present_from-joined :
      (ws : List Text)
      → all_plain ws ≡ true
      → all_proper ws ≡ true
      → is_empty x ≡ false
      → present_from true (x ++ spaced xs) (join_words ws) ≡ words_present (x ∷ xs) ws
  unfolding words_present words_prefix present_from is_space
  present_from-joined [] l o n = present_from-nothing x (spaced xs) n
  present_from-joined (w ∷ ws) l o n = present_from-spaced (w ∷ ws) l o

-- The words stand one after another among the others.
pub record IsSegment (xs ws : List Text) : Type 0 where
  pub leading : List Text
  pub trailing : List Text
  pub joined : ws ≡ leading ++ xs ++ trailing

words_prefix-append :
    (xs ws : List Text) → words_prefix xs ws ≡ true → (after : List Text) × (ws ≡ xs ++ after)
unfolding words_prefix
words_prefix-append [] ws k = (ws, refl)
words_prefix-append (x ∷ xs) [] k = cc
words_prefix-append (x ∷ xs) (w ∷ ws) k =
    let same = (eq_iff x w).0 (and_left (x == w) (words_prefix xs ws) k) in
    let (after, rest) = words_prefix-append xs ws (and_right (x == w) (words_prefix xs ws) k) in
    (after, cc (same, rest))

append-words_prefix : (xs after : List Text) → words_prefix xs (xs ++ after) ≡ true
unfolding words_prefix
append-words_prefix [] after = refl
append-words_prefix (x ∷ xs) after = rw (eq_refl x) (append-words_prefix xs after)

words_present-IsSegment : (xs ws : List Text) → words_present xs ws ≡ true → IsSegment xs ws
unfolding words_present
words_present-IsSegment xs [] k =
    let (after, rest) = words_prefix-append xs [] k in
    record { leading = []; trailing = after; joined = rest }
words_present-IsSegment xs (w ∷ ws) k = elim (Bool-cases (words_prefix xs (w ∷ ws))) [
  | inl t ↦
      let (after, rest) = words_prefix-append xs (w ∷ ws) t in
      record { leading = []; trailing = after; joined = rest }
  | inr t ↦
      let i = words_present-IsSegment xs ws (rw t at k) in
      record { leading = w ∷ i.leading; trailing = i.trailing; joined = ap (λ v. w ∷ v) i.joined }
]

prefix-present : (xs ws : List Text) → words_prefix xs ws ≡ true → words_present xs ws ≡ true
unfolding words_present
prefix-present xs [] k = k
prefix-present xs (w ∷ ws) k = rw k refl

or_true : (b : Bool) → (b || true) ≡ true
or_true true = refl
or_true false = refl

present-segment : (xs before after : List Text) → words_present xs (before ++ xs ++ after) ≡ true
unfolding words_present
present-segment xs [] after = prefix-present xs (xs ++ after) (append-words_prefix xs after)
present-segment xs (w ∷ before) after = rw (present-segment xs before after) (or_true _)

find_words : List Text → List Text → Bool
find_words [] ws = false
find_words (x ∷ xs) ws = words_present (x ∷ xs) ws

find_words-joined :
    (xs ws : List Text)
    → all_plain xs ≡ true
    → all_proper xs ≡ true
    → all_plain ws ≡ true
    → all_proper ws ≡ true
    → (if is_empty (join_words xs)
        then false
        else present_from true (join_words xs) (join_words ws))
      ≡ find_words xs ws
unfolding find_words all_proper
find_words-joined [] ws k n l o = refl
find_words-joined ([] ∷ xs) ws k n l o = cc
find_words-joined ((c ∷ x) ∷ xs) ws k n l o = present_from-joined (c ∷ x) xs k ws l o refl

find_words-IsSegment : (xs ws : List Text) → find_words xs ws ≡ true → (xs ≢ []) × IsSegment xs ws
unfolding find_words
find_words-IsSegment [] ws k = cc
find_words-IsSegment (x ∷ xs) ws k = (λ e. cc, words_present-IsSegment (x ∷ xs) ws k)

find_words-segment :
    (xs leading trailing : List Text) → xs ≢ [] → find_words xs (leading ++ xs ++ trailing) ≡ true
unfolding find_words
find_words-segment [] leading trailing n = absurd (n refl)
find_words-segment (x ∷ xs) leading trailing n = present-segment (x ∷ xs) leading trailing

alias_present-find :
    (query alias : Text)
    → alias_present (normalize query) alias ≡ find_words (words alias) (words query)
unfolding alias_present normalize
alias_present-find query alias =
    find_words-joined (words alias) (words query) (words-plain alias) (words-proper alias)
      (words-plain query) (words-proper query)

-- An alias is found in a normalized query exactly if it has a word and its words stand in the query
-- one after another: never within a longer word, and whatever separates the words.
pub alias_present_iff :
    (query alias : Text)
    → (alias_present (normalize query) alias ≡ true)
      ↔ ((words alias ≢ []) × IsSegment (words alias) (words query))
alias_present_iff query alias = (
  λ k. find_words-IsSegment (words alias) (words query) (rw alias_present-find at k),
  λ (n, i).
      rw (alias_present-find, i.joined) (find_words-segment (words alias) i.leading i.trailing n),
)
