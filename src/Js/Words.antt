-- ===== src/Js/Words.antt =====
-- Texts put together from words with one space between them: what `trim` and the split by white
-- space make of them.
use mathlib.Core.List.{reverse, reverse-append, reverse-reverse}
use troxe_host.Common.{◌≡◌, refl, true, false, List, [], ◌∷◌, ◌++◌, Text, All, ap, ◌∙◌}
use troxe_host.Js.{is_space, split_spaces, trim, trim_start}
use troxe_host.Js.Splitting.{join}

abbrev pub HasInk : Text → Type 0
HasInk [] = ⊥
HasInk (c ∷ s) = is_space c ≡ false

abbrev pub IsWord : Text → Type 0
IsWord w = HasInk w × All (λ c. is_space c ≡ false) w

abbrev pub AreWords : List Text → Type 0
AreWords ws = All IsWord ws

HasInk-append : (s t : Text) → HasInk s → HasInk (s ++ t)
HasInk-append [] t h = elim h [ ]
HasInk-append (c ∷ s) t h = h

HasInk-reverse : (w : Text) → IsWord w → HasInk (reverse w)
HasInk-reverse [] (h, _) = elim h [ ]
HasInk-reverse (c ∷ []) (h, _) = h
HasInk-reverse (c ∷ d ∷ w) (_, h) =
    rw (reverse-append (c ∷ []) (d ∷ w))
      (HasInk-append (reverse (d ∷ w)) (c ∷ []) (HasInk-reverse (d ∷ w) (h.1.0, h.1)))

HasInk-join : (w : Text) (ws : List Text) → IsWord w → HasInk (join 32 w ws)
unfolding join
HasInk-join w [] (h, _) = h
HasInk-join w (v ∷ ws) (h, _) = HasInk-append w (32 ∷ join 32 v ws) h

HasInk-reverse-join :
    (w : Text) (ws : List Text) → IsWord w → AreWords ws → HasInk (reverse (join 32 w ws))
unfolding join
HasInk-reverse-join w [] h k = HasInk-reverse w h
HasInk-reverse-join w (v ∷ ws) h (k, ks) =
    rw (reverse-append w (32 ∷ join 32 v ws), reverse-append (32 ∷ []) (join 32 v ws))
      (HasInk-append _ (reverse w)
        (HasInk-append (reverse (join 32 v ws)) (32 ∷ []) (HasInk-reverse-join v ws k ks)))

trim_start-HasInk : (s : Text) → HasInk s → trim_start s ≡ s
trim_start-HasInk [] h = elim h [ ]
trim_start-HasInk (c ∷ s) h = unfold trim_start in rw h

is_space_blank : is_space 32 ≡ true
unfolding is_space
is_space_blank = refl

split_spaces-append :
    (w s : Text)
    → All (λ c. is_space c ≡ false) w
    → HasInk s
    → split_spaces (w ++ 32 ∷ s) ≡ w ∷ split_spaces s
unfolding split_spaces
split_spaces-append [] [] h k = elim k [ ]
split_spaces-append [] (c ∷ s) h k = rw (is_space_blank, k)
split_spaces-append (c ∷ w) s (h, hs) k = rw (h, split_spaces-append w s hs k)

split_spaces-word : (w : Text) → All (λ c. is_space c ≡ false) w → split_spaces w ≡ w ∷ []
unfolding split_spaces
split_spaces-word [] h = refl
split_spaces-word (c ∷ w) (h, hs) = rw (h, split_spaces-word w hs)

split_spaces-join :
    (w : Text) (ws : List Text) → IsWord w → AreWords ws → split_spaces (join 32 w ws) ≡ w ∷ ws
unfolding join
split_spaces-join w [] (_, h) k = split_spaces-word w h
split_spaces-join w (v ∷ ws) (_, h) (k, ks) =
    split_spaces-append w (join 32 v ws) h (HasInk-join v ws k)
    ∙ ap (λ r. w ∷ r) (split_spaces-join v ws k ks)

trim-join :
    (w : Text) (ws : List Text) → IsWord w → AreWords ws → trim (join 32 w ws) ≡ join 32 w ws
unfolding trim
trim-join w ws h k =
    rw
      (
        trim_start-HasInk (join 32 w ws) (HasInk-join w ws h),
        trim_start-HasInk (reverse (join 32 w ws)) (HasInk-reverse-join w ws h k),
      )
      (reverse-reverse (join 32 w ws))

-- Words with one space between them come back from `s.trim().split(/\s+/)`.
pub split_spaces-trim :
    (w : Text) (ws : List Text)
    → IsWord w
    → AreWords ws
    → split_spaces (trim (join 32 w ws)) ≡ w ∷ ws
split_spaces-trim w ws h k = rw (trim-join w ws h k) (split_spaces-join w ws h k)
