-- ===== src/Text/Equality.antt =====
-- `===` on texts decides their equality.
use interbellum.Common.{[], ◌∷◌, true, ◌≡◌, refl, ◌↔◌, arith, is_empty}
use interbellum.Text.{Text, ◌==◌}

==→eq : (s t : Text) → s == t ≡ true → s ≡ t
unfolding ◌==◌
==→eq [] [] h = refl
==→eq [] (d ∷ t) h = cc
==→eq (c ∷ s) [] h = cc
==→eq (c ∷ s) (d ∷ t) h = ground (arith, ==→eq s t)

pub ==_refl : (s : Text) → s == s ≡ true
unfolding ◌==◌
==_refl [] = refl
==_refl (c ∷ s) = ground (arith, ==_refl s)

pub ==_iff : (s t : Text) → (s == t ≡ true) ↔ (s ≡ t)
==_iff s t = (==→eq s t, λ e. rw e (==_refl t))

pub ==_comm : (s t : Text) → s == t ≡ t == s
unfolding ◌==◌
==_comm [] [] = refl
==_comm [] (d ∷ t) = refl
==_comm (c ∷ s) [] = refl
==_comm (c ∷ s) (d ∷ t) = ground (arith, ==_comm s t)

pub ==-is_empty : (s : Text) → (is_empty s ≡ true) ↔ (s ≡ [])
==-is_empty [] = ground arith
==-is_empty (c ∷ s) = ground arith
