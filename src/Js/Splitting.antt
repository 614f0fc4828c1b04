-- ===== src/Js/Splitting.antt =====
-- What `split` gives on a text that was put together from pieces without the separator.
use troxe_host.Common.{
  length, sym, ◌∙◌, Bool-cases, inl, inr, ◌==◌, ℕ, ◌≡◌, refl, true, false, List, [], ◌∷◌, ◌++◌,
  Text, arith, ap, text_eq,
}
use troxe_host.Js.{starts_with, drop, includes, split_on}

-- the pieces with the separator between them
unfoldable pub join : ℕ → Text → List Text → Text
join sep w [] = w
join sep w (v ∷ ws) = w ++ sep ∷ join sep v ws

pub split_on-append :
    (sep : ℕ) (w s : Text)
    → includes sep w ≡ false
    → split_on sep (w ++ sep ∷ s) ≡ w ∷ split_on sep s
unfolding includes split_on
split_on-append sep [] s h = ground arith
split_on-append sep (c ∷ w) s h = ground (arith, split_on-append sep w s)

pub split_on_none : (sep : ℕ) (w : Text) → includes sep w ≡ false → split_on sep w ≡ w ∷ []
unfolding includes split_on
split_on_none sep [] h = refl
split_on_none sep (c ∷ w) h = ground (arith, split_on_none sep w)

pub includes-append :
    (c : ℕ) (s t : Text) → includes c s ≡ false → includes c t ≡ false → includes c (s ++ t) ≡ false
unfolding includes
includes-append c [] t h k = k
includes-append c (d ∷ s) t h k = ground (arith, includes-append c s t)

pub includes-append_right : (c : ℕ) (s t : Text) → includes c t ≡ true → includes c (s ++ t) ≡ true
unfolding includes
includes-append_right c [] t h = h
includes-append_right c (d ∷ s) t h = ground (arith, includes-append_right c s t)

abbrev pub Free : ℕ → List Text → Type 0
Free sep [] = Unit
Free sep (w ∷ ws) = (includes sep w ≡ false) × Free sep ws

pub split_on-join :
    (sep : ℕ) (w : Text) (ws : List Text)
    → includes sep w ≡ false
    → Free sep ws
    → split_on sep (join sep w ws) ≡ w ∷ ws
unfolding join
split_on-join sep w [] h k = split_on_none sep w h
split_on-join sep w (v ∷ ws) h (k, ks) =
    rw (split_on-append sep w (join sep v ws) h) (ap (λ r. w ∷ r) (split_on-join sep v ws k ks))

-- A text without `c` is not the text "c".
pub text_eq-free : (c : ℕ) (s : Text) → includes c s ≡ false → text_eq s (c ∷ []) ≡ false
unfolding includes text_eq
text_eq-free c [] h = refl
text_eq-free c (d ∷ s) h = ground arith

-- A text that starts with `p` is `p` and what is behind it.
pub starts_with-drop : (p s : Text) → starts_with p s ≡ true → s ≡ p ++ drop (length p) s
unfolding drop
starts_with-drop [] s h = refl
starts_with-drop (c ∷ p) [] h = cc
starts_with-drop (c ∷ p) (d ∷ s) h = ground (arith, starts_with-drop p s)

split_on_cons : (sep : ℕ) (s : Text) → (w : Text) × (ws : List Text) × (split_on sep s ≡ w ∷ ws)
unfolding split_on
split_on_cons sep [] = ([], [], refl)
split_on_cons sep (c ∷ s) = elim (Bool-cases (c == sep)) [
  | inl hit ↦ ([], split_on sep s, rw hit)
  | inr miss ↦ let (w, ws, e) = split_on_cons sep s in (c ∷ w, ws, rw (miss, e))
]

-- A separator divides the pieces, whatever stands on its sides.
pub split_on-append_any :
    (sep : ℕ) (w s : Text) → split_on sep (w ++ sep ∷ s) ≡ split_on sep w ++ split_on sep s
unfolding split_on
split_on-append_any sep [] s = ground arith
split_on-append_any sep (c ∷ w) s = elim (Bool-cases (c == sep)) [
  | inl hit ↦ rw (hit, split_on-append_any sep w s)
  | inr miss ↦ let (v, vs, e) = split_on_cons sep w in rw (miss, split_on-append_any sep w s, e)
]

-- `parts.join(sep)`
abbrev pub join_all : ℕ → List Text → Text
join_all sep [] = []
join_all sep (w ∷ ws) = join sep w ws

join-cons : (sep c : ℕ) (w : Text) (ws : List Text) → join sep (c ∷ w) ws ≡ c ∷ join sep w ws
unfolding join
join-cons sep c w [] = refl
join-cons sep c w (v ∷ ws) = refl

-- The pieces of a text, with the separator between them, are the text.
pub join_all-split_on : (sep : ℕ) (s : Text) → join_all sep (split_on sep s) ≡ s
unfolding split_on join
join_all-split_on sep [] = refl
join_all-split_on sep (c ∷ s) =
    let (v, vs, e) = split_on_cons sep s in
    let rest : join sep v vs ≡ s = ap (join_all sep) (sym e) ∙ join_all-split_on sep s in
    elim (Bool-cases (c == sep)) [
      | inl hit ↦ rw (hit, e) (ground (arith, hit, rest))
      | inr miss ↦ rw (miss, e) (join-cons sep c v vs ∙ ap (λ r. c ∷ r) rest)
    ]
