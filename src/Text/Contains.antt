-- ===== src/Text/Contains.antt =====
-- `strings.Contains` finds exactly the texts that stand within a text.
use keenetic_dns.Prelude.{
  ◌≡◌, ◌↔◌, refl, sym, ap, ap₂, ◌∙◌, subst, true, [], ◌∷◌, ◌++◌, arith, ==_iff, Bool-cases, inl,
  inr, Bytes,
}
use keenetic_dns.Text.{has_prefix, contains}

-- `part` stands within `s`.
abbrev pub Within : Bytes → Bytes → Type 0
Within part s = (front : Bytes) × (back : Bytes) × (s ≡ front ++ (part ++ back))

has_prefix-append : (part back : Bytes) → has_prefix (part ++ back) part ≡ true
unfolding has_prefix
has_prefix-append [] [] = refl
has_prefix-append [] (b ∷ back) = refl
has_prefix-append (p ∷ part) back = ground (arith, has_prefix-append part back)

has_prefix-split : (s part : Bytes) → has_prefix s part ≡ true → (back : Bytes) × (s ≡ part ++ back)
unfolding has_prefix
has_prefix-split s [] e = (s, refl)
has_prefix-split [] (p ∷ part) e = cc
has_prefix-split (c ∷ s) (p ∷ part) e =
    let (back, same) = has_prefix-split s part (ground arith) in
    (back, ap₂ (◌∷◌) ((==_iff c p).0 (ground arith)) same)

contains-Within : (s part : Bytes) → contains s part ≡ true → Within part s
unfolding contains
contains-Within [] part e = let (back, same) = has_prefix-split [] part e in ([], back, same)
contains-Within (c ∷ s) part e = elim (Bool-cases (has_prefix (c ∷ s) part)) [
  | inl here ↦ let (back, same) = has_prefix-split (c ∷ s) part here in ([], back, same)
  | inr later ↦
      let (front, back, same) =
        contains-Within s part
          (let same : contains s part ≡ contains (c ∷ s) part = rw later refl in same ∙ e) in
      (c ∷ front, back, ap (◌∷◌ c) same)
]

contains_start : (s part : Bytes) → has_prefix s part ≡ true → contains s part ≡ true
unfolding contains
contains_start [] part e = e
contains_start (c ∷ s) part e = rw e refl

contains_front : (front part back : Bytes) → contains (front ++ (part ++ back)) part ≡ true
unfolding contains
contains_front [] part back = contains_start (part ++ back) part (has_prefix-append part back)
contains_front (c ∷ front) part back = rw (contains_front front part back) (ground arith)

-- A text is found exactly if it stands within the other.
pub contains_iff : (s part : Bytes) → (contains s part ≡ true) ↔ Within part s
contains_iff s part = (
  contains-Within s part,
  λ (front, back, same).
      subst (λ t. contains t part ≡ true) (sym same) (contains_front front part back),
)
