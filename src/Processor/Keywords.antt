-- ===== src/Processor/Keywords.antt =====
-- `addModifyKeyword` of cpp/BulkIOToSDDSProcessor.h.
use text.Mathlib.Text.{◌==◌ as str_eq}
use text.Mathlib.TextEquality.{eq_iff}
use sink_sdds.Base.{
  String, Bool, true, false, Option, none, some, List, [], ◌∷◌, ◌++◌, map, ◌≡◌, refl, arith,
  if◌then◌else◌,
}
use sink_sdds.Processor.Types.{Sri, Keyword, AnyValue}

-- The loop over the keywords: the value of the first one with this id, or nothing to modify.
unfoldable pub modify : String → AnyValue → List Keyword → Option (List Keyword)
modify id value [] = none
modify id value (k ∷ ks) =
    if str_eq k.id id
    then some (record k { value = value } ∷ ks)
    else (elim (modify id value ks) [ none ↦ none | some ks' ↦ some (k ∷ ks') ])

abbrev appended : String → AnyValue → List Keyword → List Keyword
appended id value ks = ks ++ record { id = id; value = value } ∷ []

unfoldable pub add_modify_keyword : Sri → String → AnyValue → Bool → Sri
unfolding modify
add_modify_keyword sri id value add_only =
    if add_only
    then record sri { keywords = appended id value sri.keywords }
    else (elim (modify id value sri.keywords) [
      | none ↦ record sri { keywords = appended id value sri.keywords }
      | some ks ↦ record sri { keywords = ks }
    ])

-- The value that a reader finds under an id.
abbrev pub lookup : String → List Keyword → Option AnyValue
lookup id [] = none
lookup id (k ∷ ks) = if str_eq k.id id then some k.value else lookup id ks

abbrev pub ids : List Keyword → List String
ids = map λ k. k.id

abbrev pub has : String → List Keyword → Bool
has id [] = false
has id (k ∷ ks) = if str_eq k.id id then true else has id ks

abbrev put : String → AnyValue → List Keyword → List Keyword
put id value ks = elim (modify id value ks) [ none ↦ appended id value ks | some ks' ↦ ks' ]

lookup-put :
    (id j : String) (value : AnyValue) (ks : List Keyword)
    → lookup j (put id value ks) ≡ (if str_eq id j then some value else lookup j ks)
unfolding modify
lookup-put id j value [] = refl
lookup-put id j value (k ∷ ks) =
    ground (arith, eq_iff k.id id, eq_iff k.id j, eq_iff id j, lookup-put id j value ks)

ids-put :
    (id : String) (value : AnyValue) (ks : List Keyword)
    → ids (put id value ks) ≡ (if has id ks then ids ks else ids ks ++ id ∷ [])
unfolding modify
ids-put id value [] = refl
ids-put id value (k ∷ ks) = ground (arith, eq_iff k.id id, ids-put id value ks)

-- Called to modify, `addModifyKeyword` sets the keyword and changes no other: a reader then finds the new
-- value under the id and the old answer under every other. The ids stay as they were if the id was among them,
-- and otherwise the id is added at the end, so that no id is ever added twice.
pub add_modify_keyword_lem :
    (sri : Sri) (id : String) (value : AnyValue) (j : String)
    → let after = (add_modify_keyword sri id value false).keywords in
      (lookup j after ≡ (if str_eq id j then some value else lookup j sri.keywords))
      × (ids after
          ≡ (if has id sri.keywords then ids sri.keywords else ids sri.keywords ++ id ∷ []))
unfolding add_modify_keyword
add_modify_keyword_lem sri id value j =
    ground (arith, lookup-put id j value sri.keywords, ids-put id value sri.keywords)
