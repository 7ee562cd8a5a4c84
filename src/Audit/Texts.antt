-- ===== src/Audit/Texts.antt =====
-- The text that a row's hash covers, and the row's fields.
use apiv.Base.{ℕ, ◌+◌, ◌≡◌, refl, ◌∙◌, sym, ap, List, [], ◌∷◌, ◌++◌, arith, length}
use apiv.Audit.Canonical.{
  Json, Token, comma, colon, open_brace, close_brace, key_text, scalar_text, canonical,
  join_entries, insert,
}
use apiv.Audit.Chain.{hashed}

pub length-append : (xs ys : List Token) → length (xs ++ ys) ≡ length xs + length ys
length-append [] ys = ground arith
length-append (x ∷ xs) ys = ground (arith, length-append xs ys)

-- A text cut before an end of known length.
cut : (xs ys s t : List Token) → length s ≡ length t → xs ++ s ≡ ys ++ t → (xs ≡ ys) × (s ≡ t)
cut [] [] s t h e = (refl, e)
cut [] (y ∷ ys) s t h e = let longer = ap length e in absurd (ground (arith, length-append ys t))
cut (x ∷ xs) [] s t h e = let longer = ap length e in absurd (ground (arith, length-append xs s))
cut (x ∷ xs) (y ∷ ys) s t h e =
    let rest : xs ++ s ≡ ys ++ t = ground arith in
    let (p, q) = cut xs ys s t h rest in (ground arith, q)

abbrev tail_text : ℕ → ℕ → List Token
tail_text prev ts =
    comma ∷ key_text 5 ∷ colon ∷ scalar_text prev ∷ comma ∷ key_text 6 ∷ colon ∷ scalar_text ts ∷ []

abbrev head_text : ℕ → ℕ → ℕ → ℕ → List Token → List Token
head_text action actor entity id rest =
    open_brace
    ∷ key_text 0
    ∷ colon
    ∷ scalar_text action
    ∷ comma
    ∷ key_text 1
    ∷ colon
    ∷ scalar_text actor
    ∷ comma
    ∷ key_text 2
    ∷ colon
    ∷ scalar_text entity
    ∷ comma
    ∷ key_text 3
    ∷ colon
    ∷ scalar_text id
    ∷ comma
    ∷ key_text 4
    ∷ colon
    ∷ rest

hashed_text :
    (prev id actor action entity ts : ℕ) (v : Json)
    → canonical (hashed prev id actor action entity ts v)
      ≡ head_text action actor entity id ((canonical v ++ tail_text prev ts) ++ (close_brace ∷ []))
unfolding canonical join_entries insert
hashed_text prev id actor action entity ts v = refl

module _ (prev id actor action entity ts : ℕ) (v : Json) (prev' id' actor' action' entity' ts' : ℕ)
    (v' : Json) where
  pub hashed_text-injective :
      canonical (hashed prev id actor action entity ts v)
        ≡ canonical (hashed prev' id' actor' action' entity' ts' v')
      → (prev ≡ prev')
        × (id ≡ id')
        × (actor ≡ actor')
        × (action ≡ action')
        × (entity ≡ entity')
        × (ts ≡ ts')
        × (canonical v ≡ canonical v')
  hashed_text-injective e =
      let texts =
        sym (hashed_text prev id actor action entity ts v)
        ∙ e
        ∙ hashed_text prev' id' actor' action' entity' ts' v' in
      let ends : (canonical v ++ tail_text prev ts) ++ (close_brace ∷ [])
          ≡ (canonical v' ++ tail_text prev' ts') ++ (close_brace ∷ []) =
        ground arith in
      let (inner, _) = cut _ _ (close_brace ∷ []) (close_brace ∷ []) refl ends in
      let (values, tails) =
        cut (canonical v) (canonical v') (tail_text prev ts) (tail_text prev' ts') refl inner in
      (ground arith, ground arith, ground arith, ground arith, ground arith, ground arith, values)
