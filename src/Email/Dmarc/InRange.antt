-- ===== src/Email/Dmarc/InRange.antt =====
-- The list of tags that `Parse` of checks/email/internal/dmarc/dmarc.go takes the first one off.
use seta.Prelude.{
  ℕ, ◌≤◌, ◌≡◌, ◌≢◌, refl, sym, ap, ◌∙◌, Bool, true, false, List, [], ◌∷◌, arith, ◌=?◌, =?_iff,
  Solid, Bytes, is_space, is_space_pair, is_space_triple, has_byte, is_empty, trim_left, trim_right,
  trim_space, split_on, cut, ok, bind-eq-ok, Bool-cases, inl, inr, push_first,
}
use seta.Email.Tags.{parse_tag, parse_parts, parse_tags}
use seta.Email.Dmarc.{is_dmarc}

split_on-cut : (sep : ℕ) (s : Bytes) → (rest : List Bytes) × (split_on sep s ≡ (cut sep s).0 ∷ rest)
unfolding split_on cut
split_on-cut sep [] = ([], refl)
split_on-cut sep (c ∷ s) =
    let (rest, e) = split_on-cut sep s in
    elim (Bool-cases (c =? sep)) [
      | inl same ↦ rw same (split_on sep s, refl)
      | inr differ ↦ rw differ (rest, ap (push_first c) e)
    ]

cut-has_byte : (sep : ℕ) (s : Bytes) → (cut sep s).2 ≡ true → has_byte sep s ≡ true
unfolding cut has_byte
cut-has_byte sep [] h = absurd (cc h)
cut-has_byte sep (c ∷ s) h = ground (arith, h, cut-has_byte sep s)

one_off :
    (c a : ℕ) (s : Bytes)
    → Solid c
    → is_space a ≡ true
    → has_byte c (a ∷ s) ≡ true
    → has_byte c s ≡ true
unfolding has_byte
one_off c a s solid space h = elim (Bool-cases (a =? c)) [
  | inl same ↦ absurd (cc (ap is_space ((=?_iff a c).0 same), space, solid.1))
  | inr differ ↦ ground (arith, h, differ)
]

high_off :
    (c a : ℕ) (s : Bytes) → Solid c → 0x80 ≤ a → has_byte c (a ∷ s) ≡ true → has_byte c s ≡ true
unfolding has_byte
high_off c a s solid high h = ground (arith, h, solid.0, high, =?_iff a c)

pair_high : (a b : ℕ) → is_space_pair a b ≡ true → (0x80 ≤ a) × (0x80 ≤ b)
unfolding is_space_pair
pair_high a b h = (ground (arith, h), ground (arith, h))

triple_high : (a b d : ℕ) → is_space_triple a b d ≡ true → (0x80 ≤ a) × (0x80 ≤ b) × (0x80 ≤ d)
unfolding is_space_triple
triple_high a b d h = (ground (arith, h), ground (arith, h), ground (arith, h))

trim_left-has_byte :
    (c : ℕ) (s : Bytes) → Solid c → has_byte c s ≡ true → has_byte c (trim_left s) ≡ true
unfolding trim_left
trim_left-has_byte c [] solid h = h
trim_left-has_byte c (a ∷ []) solid h = elim (Bool-cases (is_space a)) [
  | inl space ↦ rw space (one_off c a [] solid space h)
  | inr differ ↦ rw differ h
]
trim_left-has_byte c (a ∷ b ∷ []) solid h = elim (Bool-cases (is_space a)) [
  | inl space ↦ rw space (trim_left-has_byte c (b ∷ []) solid (one_off c a (b ∷ []) solid space h))
  | inr differ ↦ elim (Bool-cases (is_space_pair a b)) [
    | inl pair ↦
        let (high, high') = pair_high a b pair in
        rw (differ, pair) (high_off c b [] solid high' (high_off c a (b ∷ []) solid high h))
    | inr apart ↦ rw (differ, apart) h
  ]
]
trim_left-has_byte c (a ∷ b ∷ d ∷ s) solid h = elim (Bool-cases (is_space a)) [
  | inl space ↦
      rw space (trim_left-has_byte c (b ∷ d ∷ s) solid (one_off c a (b ∷ d ∷ s) solid space h))
  | inr differ ↦ elim (Bool-cases (is_space_pair a b)) [
    | inl pair ↦
        let (high, high') = pair_high a b pair in
        rw (differ, pair)
          (trim_left-has_byte c (d ∷ s) solid
            (high_off c b (d ∷ s) solid high' (high_off c a (b ∷ d ∷ s) solid high h)))
    | inr apart ↦ elim (Bool-cases (is_space_triple a b d)) [
      | inl triple ↦
          let (one, two, three) = triple_high a b d triple in
          rw (differ, apart, triple)
            (trim_left-has_byte c s solid (
              high_off c d s solid three
                (high_off c b (d ∷ s) solid two (high_off c a (b ∷ d ∷ s) solid one h))))
      | inr other ↦ rw (differ, apart, other) h
    ]
  ]
]

full : (c : ℕ) (s : Bytes) → has_byte c s ≡ true → is_empty s ≡ false
unfolding has_byte is_empty
full c [] h = absurd (cc h)
full c (d ∷ s) h = refl

trim_right-full :
    (c : ℕ) (s : Bytes) → Solid c → has_byte c s ≡ true → is_empty (trim_right s) ≡ false
unfolding trim_right is_empty
trim_right-full c [] solid h = full c [] h
trim_right-full c (d ∷ s) solid h =
    rw (full c (trim_left (d ∷ s)) (trim_left-has_byte c (d ∷ s) solid h)) refl

trim_space-full :
    (c : ℕ) (s : Bytes) → Solid c → has_byte c s ≡ true → is_empty (trim_space s) ≡ false
unfolding trim_space
trim_space-full c s solid h = trim_right-full c (trim_left s) solid (trim_left-has_byte c s solid h)

parse_parts-full :
    (fold : Bool) (seen : List Bytes) (raw : Bytes) (rest : List Bytes)
    → is_empty (trim_space raw) ≡ false
    → parse_parts fold seen (raw ∷ rest) ≢ ok []
unfolding parse_parts
parse_parts-full fold seen raw rest part h =
    let (tag, read, more) = bind-eq-ok (parse_tag fold seen (trim_space raw)) _ (rw part at h) in
    let (tags, later, made) = bind-eq-ok (parse_parts fold (tag.name ∷ seen) rest) _ more in
    absurd (cc made)

-- A text that `IsDMARC` accepts never has an empty list of tags, so that `Parse`, which reads the list from its
-- second tag on, does not panic.
pub parse_tags-in_range : (txt : Bytes) → is_dmarc txt ≡ true → parse_tags true txt ≢ ok []
unfolding is_dmarc parse_tags is_space
parse_tags-in_range txt h e =
    let first = (cut b';' txt).0 in
    let found : (cut b'=' first).2 ≡ true = ground (arith, h) in
    let (rest, split) = split_on-cut b';' txt in
    parse_parts-full true [] first rest
      (trim_space-full b'=' first (omega arith, refl) (cut-has_byte b'=' first found))
      (sym (ap (parse_parts true []) split) ∙ e)
