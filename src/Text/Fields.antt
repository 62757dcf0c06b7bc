-- ===== src/Text/Fields.antt =====
-- Lines and fields: what `strings.Split` and `strings.TrimSpace` make of a text that was put together
-- from parts.
use keenetic_dns.Prelude.{
  ℕ, ◌≡◌, refl, sym, ap, ◌∙◌, true, false, [], ◌∷◌, ◌++◌, All, Bytes, ◌==◌, ==-true, ==-false,
  arith, append_assoc,
}
use mathlib.Core.List.{reverse, reverse-append, reverse-reverse}
use keenetic_dns.Text.{is_space, trim_front, trim_space, split, is_empty}

-- The byte does not stand in the text.
abbrev pub Free : ℕ → Bytes → Type 0
Free sep s = All (λ c. (c == sep) ≡ false) s

-- A part of a line: it has no white space.
abbrev pub Solid : Bytes → Type 0
Solid s = All (λ c. is_space c ≡ false) s

pub Solid-Free : (sep : ℕ) (s : Bytes) → is_space sep ≡ true → Solid s → Free sep s
Solid-Free sep [] h v = tt
Solid-Free sep (c ∷ s) h (v, vs) = (
  ==-false c sep (λ e. let n : true ≡ false = sym h ∙ ap is_space (sym e) ∙ v in cc),
  Solid-Free sep s h vs,
)

pub split-Free : (sep : ℕ) (s : Bytes) → Free sep s → split sep s ≡ s ∷ []
unfolding split
split-Free sep [] h = refl
split-Free sep (c ∷ s) (h, hs) = rw (h, split-Free sep s hs) refl

pub split-append :
    (sep : ℕ) (s rest : Bytes) → Free sep s → split sep (s ++ sep ∷ rest) ≡ s ∷ split sep rest
unfolding split
split-append sep [] rest h = rw (==-true sep sep refl) refl
split-append sep (c ∷ s) rest (h, hs) = rw (h, split-append sep s rest hs) refl

trim_front-cons : (c : ℕ) (s : Bytes) → is_space c ≡ false → trim_front (c ∷ s) ≡ c ∷ s
unfolding trim_front
trim_front-cons c s h = rw (h) refl

pub trim_front-space : (c : ℕ) (s : Bytes) → is_space c ≡ true → trim_front (c ∷ s) ≡ trim_front s
unfolding trim_front
trim_front-space c s h = rw (h) refl

-- White space in front goes.
pub trim_space-front : (c : ℕ) (s : Bytes) → is_space c ≡ true → trim_space (c ∷ s) ≡ trim_space s
unfolding trim_space
trim_space-front c s h = rw (trim_front-space c s h) refl

-- The end of a text is trimmed up to the last byte that is no white space.
trim_back :
    (s : Bytes) (d : ℕ)
    → is_space d ≡ false
    → reverse (trim_front (reverse (s ++ d ∷ []))) ≡ s ++ d ∷ []
trim_back s d k =
    ap (λ x. reverse (trim_front x)) (reverse-append s (d ∷ []))
    ∙ ap reverse (trim_front-cons d (reverse s) k)
    ∙ reverse-append (d ∷ []) (reverse s)
    ∙ ap (λ x. x ++ d ∷ []) (reverse-reverse s)

-- A text between two bytes that are no white space keeps them when it is trimmed.
pub trim_space_kept :
    (c : ℕ) (s : Bytes) (d : ℕ)
    → is_space c ≡ false
    → is_space d ≡ false
    → trim_space (c ∷ s ++ d ∷ []) ≡ c ∷ s ++ d ∷ []
unfolding trim_space
trim_space_kept c s d h k =
    ap (λ x. reverse (trim_front (reverse x))) (trim_front-cons c (s ++ d ∷ []) h)
    ∙ trim_back (c ∷ s) d k

-- A space behind it goes.
pub trim_space_back :
    (c : ℕ) (s : Bytes) (d : ℕ)
    → is_space c ≡ false
    → is_space d ≡ false
    → trim_space (c ∷ s ++ d ∷ b' ' ∷ []) ≡ c ∷ s ++ d ∷ []
unfolding trim_space is_space
trim_space_back c s d h k =
    ap (λ x. reverse (trim_front (reverse x))) (trim_front-cons c (s ++ d ∷ b' ' ∷ []) h)
    ∙ ap (λ x. reverse (trim_front (reverse (c ∷ x)))) (sym (append_assoc s (d ∷ []) (b' ' ∷ [])))
    ∙ ap (λ x. reverse (trim_front x)) (reverse-append (c ∷ s ++ d ∷ []) (b' ' ∷ []))
    ∙ ap reverse (trim_front-space b' ' (reverse (c ∷ s ++ d ∷ [])) refl)
    ∙ trim_back (c ∷ s) d k

pub is_empty-append : (s : Bytes) (c : ℕ) (t : Bytes) → is_empty (s ++ c ∷ t) ≡ false
is_empty-append [] c t = ==-false _ 0 (omega arith)
is_empty-append (x ∷ s) c t = ==-false _ 0 (omega arith)
