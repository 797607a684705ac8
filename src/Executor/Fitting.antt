-- ===== src/Executor/Fitting.antt =====
-- The bounded output is the longest beginning of the text that fits.
use jvc_core.Base.{
  ℕ, zero, suc, ◌≤◌, ◌<◌, ◌≡◌, refl, ◌∙◌, ap, ◌⊎◌, inl, inr, Bool, true, false, ◌&&◌, [], ◌∷◌, ◌++◌,
  Text, Bytes, encode, length, ltb, Bool-cases, arith, if◌then◌else◌,
}
use jvc_core.Executor.Output.{drop_last, shrink, fit_bytes}

-- The text that is kept fits, and it is all of the text or one more character would not fit.
pub record IsLongest (max_bytes : ℕ) (s kept : Text) : Type 0 where
  pub fits : length (encode kept) ≤ max_bytes
  pub longest :
      (s ≡ kept)
      ⊎ ((c : ℕ) × (dropped : Text) × (s ≡ kept ++ c ∷ dropped)
          × (max_bytes < length (encode (kept ++ c ∷ []))))

length-drop_last : (c : ℕ) (s : Text) → length (drop_last (c ∷ s)) ≡ length s
unfolding drop_last
length-drop_last c [] = refl
length-drop_last c (d ∷ s) = ap suc (length-drop_last d s)

last_of : (c : ℕ) (s : Text) → (d : ℕ) × (c ∷ s ≡ drop_last (c ∷ s) ++ d ∷ [])
unfolding drop_last
last_of c [] = (c, refl)
last_of c (b ∷ s) = let (d, e) = last_of b s in (d, ap (λ v. c ∷ v) e)

append_assoc : (r s t : Text) → (r ++ s) ++ t ≡ r ++ (s ++ t)
append_assoc [] s t = refl
append_assoc (c ∷ r) s t = ap (λ v. c ∷ v) (append_assoc r s t)

shrunk-IsLongest :
    (max_bytes c : ℕ) (s kept : Text)
    → max_bytes < length (encode (c ∷ s))
    → IsLongest max_bytes (drop_last (c ∷ s)) kept
    → IsLongest max_bytes (c ∷ s) kept
shrunk-IsLongest max_bytes c s kept long i = record { fits = i.fits; longest = one_more i.longest }
  where
    one_more :
        (drop_last (c ∷ s) ≡ kept)
          ⊎ ((b : ℕ) × (dropped : Text) × (drop_last (c ∷ s) ≡ kept ++ b ∷ dropped)
              × (max_bytes < length (encode (kept ++ b ∷ []))))
        → (c ∷ s ≡ kept)
          ⊎ ((b : ℕ) × (dropped : Text) × (c ∷ s ≡ kept ++ b ∷ dropped)
              × (max_bytes < length (encode (kept ++ b ∷ []))))
    one_more (inl e) =
        let (d, l) = last_of c s in
        let whole = l ∙ ap (λ v. v ++ d ∷ []) e in inr (d, [], whole, rw (← whole) long)
    one_more (inr (b, dropped, e, k)) =
        let (d, l) = last_of c s in
        inr (
          b,
          dropped ++ d ∷ [],
          l ∙ ap (λ v. v ++ d ∷ []) e ∙ append_assoc kept (b ∷ dropped) (d ∷ []),
          k,
        )

ltb-less : (a b : ℕ) → ltb a b ≡ true → a < b
ltb-less a b k = ground arith

ltb-bound : (a b : ℕ) → ltb a b ≡ false → b ≤ a
ltb-bound a b k = ground arith

nothing-IsLongest : (max_bytes : ℕ) → IsLongest max_bytes [] []
unfolding encode
nothing-IsLongest max_bytes = record { fits = omega arith; longest = inl refl }

if_same : {A : Type 0} (b : Bool) (x y : A) → (if b && false then x else y) ≡ y
if_same true x y = refl
if_same false x y = refl

shrink-IsLongest :
    (n max_bytes : ℕ) (s : Text) → length s ≤ n → IsLongest max_bytes s (shrink n max_bytes s)
unfolding shrink
shrink-IsLongest zero max_bytes [] k = nothing-IsLongest max_bytes
shrink-IsLongest zero max_bytes (c ∷ s) k = absurd (omega arith)
shrink-IsLongest (suc n) max_bytes [] k =
    rw (if_same (ltb max_bytes (length (encode [])))) (nothing-IsLongest max_bytes)
shrink-IsLongest (suc n) max_bytes (c ∷ s) k =
    elim (Bool-cases (ltb max_bytes (length (encode (c ∷ s))))) [
      | inl t ↦ rw t (
          shrunk-IsLongest max_bytes c s _ (ltb-less _ _ t)
            (shrink-IsLongest n max_bytes (drop_last (c ∷ s)) (rw length-drop_last (omega arith))))
      | inr t ↦ rw t (record { fits = ltb-bound _ _ t; longest = inl refl })
    ]

-- The loop ends by itself, whatever the decoding and the bytes: the text returned encodes to at most
-- the bound, it is a beginning of the decoded text, and it is all of it or one more character would
-- pass the bound.
pub fit_bytes-IsLongest :
    (decode : Bytes → Text) (raw : Bytes) (max_bytes : ℕ)
    → IsLongest max_bytes (decode raw) (fit_bytes decode raw max_bytes)
unfolding fit_bytes
fit_bytes-IsLongest decode raw max_bytes = shrink-IsLongest _ max_bytes (decode raw) (omega arith)
