-- ===== src/Audit/Canonical.antt =====
-- security/immutable.audit.ts: `canonicalStringify`. A key is a number, ordered as its text is; a scalar
-- is a number for its JSON text. The text that is built is a list of tokens.
use apiv.Base.{ℕ, List, [], ◌∷◌, ◌++◌, ltb, if◌then◌else◌}

mutual
  pub data Json : Type 0 where
    undefined_value : Json
    scalar : ℕ → Json
    array : Items → Json
    object : Members → Json

  pub data Items : Type 0 where
    no_items : Items
    item : Json → Items → Items

  pub data Members : Type 0 where
    no_members : Members
    member : ℕ → Json → Members → Members

pub data Token : Type 0 where
  undefined_text comma colon open_bracket close_bracket open_brace close_brace : Token
  scalar_text key_text : ℕ → Token

pub record Entry : Type 0 where
  pub key : ℕ
  pub text : List Token

-- `Object.keys(...).sort()`, on the entries.
unfoldable pub insert : Entry → List Entry → List Entry
insert e [] = e ∷ []
insert e (x ∷ xs) = let rest = insert e xs in if ltb x.key e.key then x ∷ rest else e ∷ x ∷ xs

abbrev pub entry_text : Entry → List Token
entry_text e = key_text e.key ∷ colon ∷ e.text

unfoldable pub join_entries : List Entry → List Token
join_entries [] = []
join_entries (e ∷ []) = entry_text e
join_entries (e ∷ x ∷ es) = entry_text e ++ (comma ∷ join_entries (x ∷ es))

-- `join` writes an undefined item as the empty text, and a template writes it out.
abbrev pub item_text : Json → List Token → List Token
item_text undefined_value text = []
item_text v text = text

unfoldable mutual
  pub canonical : Json → List Token
  canonical undefined_value = undefined_text ∷ []
  canonical (scalar n) = scalar_text n ∷ []
  canonical (array xs) = open_bracket ∷ (canonical_items xs ++ (close_bracket ∷ []))
  canonical (object ms) = open_brace ∷ (join_entries (canonical_members ms) ++ (close_brace ∷ []))

  pub canonical_items : Items → List Token
  canonical_items no_items = []
  canonical_items (item v no_items) = item_text v (canonical v)
  canonical_items (item v (item w vs)) =
      item_text v (canonical v) ++ (comma ∷ canonical_items (item w vs))

  pub canonical_members : Members → List Entry
  canonical_members no_members = []
  canonical_members (member k v ms) =
      insert (record { key = k; text = canonical v }) (canonical_members ms)
