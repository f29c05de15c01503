-- ===== src/Influx/Escape.antt =====
-- Tags, as the database reads them back: a backslash hides a comma, an equals sign or a blank that
-- follows it, and is a plain character otherwise (the line protocol's rule).
use geomqtt.Base.{
  ℕ, [], ◌∷◌, ◌++◌, append-nil, Bool, true, false, ◌&&◌, ◌||◌, ◌≡◌, refl, ap, ◌∙◌, arith, Text,
  ◌==◌, if◌then◌else◌, Bool-cases, inl, inr, append_assoc,
}
use geomqtt.Influx.Line.{is_tag_special, escape_tag}

-- The characters that end a tag (the line protocol's rule).
unfoldable pub separates : ℕ → Bool
separates c = c == b',' || c == b'=' || c == b' '

-- The source escapes these characters and no other.
separates_special : (c : ℕ) → separates c ≡ is_tag_special c
unfolding separates is_tag_special
separates_special c = refl

-- The value of a tag, and what follows it from the first separator that is not hidden.
unfoldable pub read_tag : Text → Text × Text
read_tag [] = ([], [])
read_tag (c ∷ []) = if separates c then ([], c ∷ []) else (c ∷ [], [])
read_tag (c ∷ d ∷ s) =
    let hidden = read_tag s in
    let plain = read_tag (d ∷ s) in
    if c == b'\\' && separates d
    then (d ∷ hidden.0, hidden.1)
    else if separates c
    then ([], c ∷ d ∷ s)
    else (c ∷ plain.0, plain.1)

unfoldable pub ends_in_backslash : Text → Bool
ends_in_backslash [] = false
ends_in_backslash (c ∷ []) = c == b'\\'
ends_in_backslash (c ∷ d ∷ s) = ends_in_backslash (d ∷ s)

read_hidden :
    (d : ℕ) (s : Text)
    → is_tag_special d ≡ true
    → read_tag (b'\\' ∷ d ∷ s) ≡ (d ∷ (read_tag s).0, (read_tag s).1)
unfolding read_tag
read_hidden d s h = rw (separates_special d ∙ h)

read_plain :
    (c d : ℕ) (s : Text)
    → is_tag_special c ≡ false
    → ((c == b'\\') && is_tag_special d) ≡ false
    → read_tag (c ∷ d ∷ s) ≡ (c ∷ (read_tag (d ∷ s)).0, (read_tag (d ∷ s)).1)
unfolding read_tag
read_plain c d s h k =
    rw (separates_special c ∙ h, ap (λ b. (c == b'\\') && b) (separates_special d) ∙ k)

-- An escaped text does not begin with a separator.
escape_tag-head :
    (c : ℕ) (s : Text)
    → (d : ℕ) × (u : Text) × (escape_tag (c ∷ s) ≡ d ∷ u) × (is_tag_special d ≡ false)
unfolding escape_tag
escape_tag-head c s = elim (Bool-cases (is_tag_special c)) [
  | inl e ↦ (b'\\', c ∷ escape_tag s, rw e, refl)
  | inr e ↦ (c, escape_tag s, rw e, e)
]

escape_special :
    (c : ℕ) (s : Text) → is_tag_special c ≡ true → escape_tag (c ∷ s) ≡ b'\\' ∷ c ∷ escape_tag s
unfolding escape_tag
escape_special c s e = rw e

escape_plain : (c : ℕ) (s : Text) → is_tag_special c ≡ false → escape_tag (c ∷ s) ≡ c ∷ escape_tag s
unfolding escape_tag
escape_plain c s e = rw e

escape-nil : escape_tag [] ≡ []
unfolding escape_tag
escape-nil = refl

-- A plain character in front of a text that does not begin with a separator.
read_plain_lead :
    (c k : ℕ) (w u t : Text)
    → is_tag_special c ≡ false
    → w ≡ k ∷ u
    → is_tag_special k ≡ false
    → read_tag (c ∷ (w ++ t)) ≡ (c ∷ (read_tag (w ++ t)).0, (read_tag (w ++ t)).1)
read_plain_lead c k w u t e starts plain = rw starts (read_plain c k (u ++ t) e (ground arith))

read_tag-append :
    (s t : Text) (d : ℕ)
    → (ends_in_backslash s && is_tag_special d) ≡ false
    → read_tag (escape_tag s ++ d ∷ t) ≡ (s ++ (read_tag (d ∷ t)).0, (read_tag (d ∷ t)).1)
unfolding ends_in_backslash
read_tag-append [] t d h = rw escape-nil
read_tag-append (c ∷ []) t d h = elim (Bool-cases (is_tag_special c)) [
  | inl e ↦ rw (escape_special c [] e, escape-nil) (read_hidden c (d ∷ t) e)
  | inr e ↦ rw (escape_plain c [] e, escape-nil) (read_plain c d t e h)
]
read_tag-append (c ∷ b ∷ s) t d h =
    let ih = read_tag-append (b ∷ s) t d h in
    elim (Bool-cases (is_tag_special c)) [
      | inl e ↦ rw (escape_special c (b ∷ s) e, read_hidden c _ e, ih)
      | inr e ↦
          let (k, u, starts, plain) = escape_tag-head b s in
          rw (
            escape_plain c (b ∷ s) e,
            read_plain_lead c k (escape_tag (b ∷ s)) u (d ∷ t) e starts plain,
            ih,
          )
    ]

read_separator : (d : ℕ) (t : Text) → is_tag_special d ≡ true → read_tag (d ∷ t) ≡ ([], d ∷ t)
unfolding read_tag is_tag_special separates
read_separator d [] h = ground arith
read_separator d (c ∷ t) h = ground arith

-- A tag that does not end in a backslash is read back up to the separator behind it.
pub read_tag-escape_tag :
    (s t : Text) (d : ℕ)
    → ends_in_backslash s ≡ false
    → is_tag_special d ≡ true
    → read_tag (escape_tag s ++ d ∷ t) ≡ (s, d ∷ t)
read_tag-escape_tag s t d h k = rw (read_tag-append s t d (rw h), read_separator d t k, append-nil)

plain_backslash : is_tag_special b'\\' ≡ false
unfolding is_tag_special
plain_backslash = refl

escape_tag-append : (s t : Text) → escape_tag (s ++ t) ≡ escape_tag s ++ escape_tag t
unfolding escape_tag
escape_tag-append [] t = refl
escape_tag-append (c ∷ s) t = elim (Bool-cases (is_tag_special c)) [
  | inl e ↦ rw (e, escape_tag-append s t)
  | inr e ↦ rw (e, escape_tag-append s t)
]

-- A tag that ends in a backslash swallows the separator behind it.
pub read_tag-escape_tag_backslash :
    (s t : Text) (d : ℕ)
    → is_tag_special d ≡ true
    → read_tag (escape_tag (s ++ b'\\' ∷ []) ++ d ∷ t) ≡ (s ++ d ∷ (read_tag t).0, (read_tag t).1)
read_tag-escape_tag_backslash s t d k = rw (
  escape_tag-append s (b'\\' ∷ []),
  escape_plain b'\\' [] plain_backslash,
  escape-nil,
  append_assoc,
  read_tag-append s (d ∷ t) b'\\' (rw plain_backslash (ground arith)),
  read_hidden d t k,
)
