-- ===== src/Adapter/Clear/Order.antt =====
-- The order of strings, and `sort`.
use fram.Prelude.{◌≡◌, refl, true, false, [], ◌∷◌, same_elems, arith}
use fram.Text.{Text}
use fram.Adapter.Clear.{text_ltb}

pub text_ltb-irreflexive : (s : Text) → text_ltb s s ≡ false
unfolding text_ltb
text_ltb-irreflexive [] = refl
text_ltb-irreflexive (c ∷ s) = ground (arith, text_ltb-irreflexive s)

pub text_ltb_trans :
    (s t u : Text) → text_ltb s t ≡ true → text_ltb t u ≡ true → text_ltb s u ≡ true
unfolding text_ltb
text_ltb_trans [] [] u h h' = cc
text_ltb_trans [] (d ∷ t) [] h h' = cc
text_ltb_trans [] (d ∷ t) (e ∷ u) h h' = refl
text_ltb_trans (c ∷ s) [] u h h' = cc
text_ltb_trans (c ∷ s) (d ∷ t) [] h h' = cc
text_ltb_trans (c ∷ s) (d ∷ t) (e ∷ u) h h' = ground (arith, text_ltb_trans s t u)

-- Two strings that stand neither way are equal.
pub text_ltb-connex :
    (s t : Text) → text_ltb s t ≡ false → text_ltb t s ≡ false → same_elems s t ≡ true
unfolding text_ltb same_elems
text_ltb-connex [] [] h h' = refl
text_ltb-connex [] (d ∷ t) h h' = cc
text_ltb-connex (c ∷ s) [] h h' = cc
text_ltb-connex (c ∷ s) (d ∷ t) h h' = ground (arith, text_ltb-connex s t)

-- What is not below a string is not below one that stands under it.
pub not_ltb_trans :
    (s t u : Text) → text_ltb s t ≡ false → text_ltb t u ≡ false → text_ltb s u ≡ false
unfolding text_ltb
not_ltb_trans [] [] u h h' = h'
not_ltb_trans [] (d ∷ t) u h h' = cc
not_ltb_trans (c ∷ s) [] [] h h' = refl
not_ltb_trans (c ∷ s) [] (e ∷ u) h h' = cc
not_ltb_trans (c ∷ s) (d ∷ t) [] h h' = refl
not_ltb_trans (c ∷ s) (d ∷ t) (e ∷ u) h h' = ground (arith, not_ltb_trans s t u)

pub text_ltb-asym : (s t : Text) → text_ltb s t ≡ true → text_ltb t s ≡ false
unfolding text_ltb
text_ltb-asym [] [] h = cc
text_ltb-asym [] (d ∷ t) h = refl
text_ltb-asym (c ∷ s) [] h = cc
text_ltb-asym (c ∷ s) (d ∷ t) h = ground (arith, text_ltb-asym s t)
