-- ===== src/Query/Keyword.antt =====
-- Keywords, modifiers and the scopes of groups, core/src/query.rs.
use apfsearch.Prelude.{
  ℕ, Bool, true, false, not, ◌||◌, Option, none, some, List, [], ◌∷◌, ◌==◌, if◌then◌else◌, ◌>>=◌,
}
use apfsearch.Text.{Text, to_ascii_lowercase, filter, is}
use apfsearch.External.{External}
use apfsearch.Query.Ast.{Field, TextTarget, property, MatchOptions, Query, Term, nil, cons}

unfoldable pub keyword : Text → Text
keyword s = filter (λ c. not (c == b'-')) (to_ascii_lowercase s)

unfoldable pub text_property : Text → Bool
text_property key =
    is key "artist"
    || (is key "album"
        || (is key "title"
            || (is key "kind"
                || (is key "author"
                    || (is key "subject"
                        || (is key "keywords"
                            || (is key "creator"
                                || (is key "producer"
                                    || (is key "genre"
                                        || (is key "copyright"
                                            || (is key "composer"
                                                || (is key "cameramake"
                                                    || is key "cameramodel"))))))))))))

-- Whether descendants count beside children, and the kind of entry that is asked for.
pub relation_kind : Text → Option (Bool × Option Bool)
relation_kind key =
    if is key "child"
    then some (false, none)
    else if is key "childfile"
    then some (false, some false)
    else if is key "childfolder"
    then some (false, some true)
    else if is key "descendant"
    then some (true, none)
    else if is key "descendantfile"
    then some (true, some false)
    else if is key "descendantfolder"
    then some (true, some true)
    else none

-- `s.strip_suffix(':')`
abbrev pub strip_colon : Text → Option Text
strip_colon [] = none
strip_colon (c ∷ []) = if c == b':' then some [] else none
strip_colon (c ∷ d ∷ text) = strip_colon (d ∷ text) >>= λ rest. some (c ∷ rest)

abbrev prepend : ℕ → List Text → List Text
prepend c [] = (c ∷ []) ∷ []
prepend c (part ∷ parts) = (c ∷ part) ∷ parts

-- `s.split(':')`
abbrev pub split_colon : Text → List Text
split_colon [] = [] ∷ []
split_colon (c ∷ text) =
    let rest = split_colon text in if c == b':' then [] ∷ rest else prepend c rest

module _ (x : External) where
  -- `none` is the result `false`, after which the options are as they were.
  pub modifier : MatchOptions x → Text → Option (MatchOptions x)
  unfolding keyword
  modifier options key =
      let k = keyword key in
      if is k "case"
      then some (record options { sensitive = true })
      else if is k "nocase"
      then some (record options { sensitive = false })
      else if is k "path"
      then some (record options { field = Field.path })
      else if is k "name" || is k "nopath"
      then some (record options { field = Field.name })
      else if is k "parent"
      then some (record options { field = Field.parent; whole = true })
      else if is k "pathpart" || (is k "location" || is k "loc")
      then some (record options { field = Field.parent })
      else if is k "regex"
      then some (record options { regex = true })
      else if is k "noregex"
      then some (record options { regex = false })
      else if is k "diacritics" || is k "diac"
      then some (record options { diacritics = true })
      else if is k "nodiacritics" || is k "nodiac"
      then some (record options { diacritics = false })
      else if is k "wholewords" || is k "ww"
      then some (record options { prefix = true; suffix = true })
      else if is k "nowholewords" || is k "noww"
      then some (record options { prefix = false; suffix = false })
      else if is k "prefix"
      then some (record options { prefix = true })
      else if is k "noprefix"
      then some (record options { prefix = false })
      else if is k "suffix"
      then some (record options { suffix = true })
      else if is k "nosuffix"
      then some (record options { suffix = false })
      else if is k "whole" || (is k "wholefilename" || (is k "wfn" || is k "entire"))
      then some (record options { whole = true })
      else if is k "nowhole" || (is k "nowholefilename" || (is k "nowfn" || is k "noentire"))
      then some (record options { whole = false })
      else if is k "startwith" || is k "^"
      then some (record options { start = true })
      else if is k "nostartwith"
      then some (record options { start = false })
      else if is k "endwith" || is k "$"
      then some (record options { end = true })
      else if is k "noendwith"
      then some (record options { end = false })
      else if is k "nowildcards"
      then some (record options { wildcards = false })
      else if is k "dotall"
      then some (record options { dot_all = true })
      else if is k "nodotall"
      then some (record options { dot_all = false })
      else if is k "multiline"
      then some (record options { multiline = true })
      else if is k "nomultiline"
      then some (record options { multiline = false })
      else none

  -- The last key names the relation, and the others are modifiers.
  relation_keys : MatchOptions x → List Text → Option (Bool × Option Bool × MatchOptions x)
  unfolding modifier relation_kind
  relation_keys options [] = none
  relation_keys options (key ∷ []) = relation_kind (keyword key) >>= λ k. some (k.0, k.1, options)
  relation_keys options (key ∷ next ∷ keys) =
      modifier options (keyword key) >>= λ changed. relation_keys changed (next ∷ keys)

  pub relation_scope : Text → MatchOptions x → Option (Bool × Option Bool × MatchOptions x)
  unfolding relation_keys
  relation_scope prefix base = strip_colon prefix >>= λ keys. relation_keys base (split_colon keys)

  -- A key that is no modifier: a kind of entry, or what is searched.
  scope_key : MatchOptions x → Option Bool → Text → Option (MatchOptions x × Option Bool)
  unfolding text_property
  scope_key options is_dir key =
      let k = keyword key in
      if is k "file"
      then some (options, some false)
      else if is k "folder" || is k "dir"
      then some (options, some true)
      else if is k "content"
      then some (record options { target = some TextTarget.content }, is_dir)
      else if is k "extension"
      then some (record options { target = some TextTarget.extension }, is_dir)
      else if text_property k
      then some (record options { target = some (property (keyword k)) }, is_dir)
      else none

  scope_keys : MatchOptions x → Option Bool → List Text → Option (MatchOptions x × Option Bool)
  unfolding modifier scope_key
  scope_keys options is_dir [] = some (options, is_dir)
  scope_keys options is_dir (key ∷ keys) = elim (modifier options key) [
    | some changed ↦ scope_keys changed is_dir keys
    | none ↦ scope_key options is_dir key >>= λ changed. scope_keys changed.0 changed.1 keys
  ]

  pub scoped_options : Text → MatchOptions x → Option (MatchOptions x × Option Bool)
  unfolding scope_keys
  scoped_options prefix base =
      strip_colon prefix >>= λ keys. scope_keys base none (split_colon keys)

  pub restrict_type : Query x → Option Bool → Query x
  restrict_type query none = query
  restrict_type query (some dir) = Query.and (cons (Query.term (Term.is_dir dir)) (cons query nil))
