-- ===== src/Js/Dict.antt =====
-- A JavaScript object used as a dictionary with text keys, in the order of insertion.
use relayer_node.Base.{
  ℕ, suc, ◌+◌, ◌≤◌, String, ◌≡◌, refl, ◌≢◌, Bool, Option, none, some, List, [], ◌∷◌, map, arith,
  str_eq, str_eq_refl, eq_iff, if◌then◌else◌, length,
}

abbrev pub Dict {ℓ} : Type ℓ → Type ℓ
Dict V = List (String × V)

module _ {ℓ} {V : Type ℓ} where
  -- d[k]; `none` is `undefined`
  unfoldable pub lookup : String → Dict V → Option V
  lookup k [] = none
  lookup k ((j, v) ∷ d) = if str_eq j k then some v else lookup k d

  -- d[k] = v
  unfoldable pub insert : String → V → Dict V → Dict V
  insert k v [] = (k, v) ∷ []
  insert k v ((j, w) ∷ d) = if str_eq j k then (k, v) ∷ d else (j, w) ∷ insert k v d

  -- delete d[k]; a key stands in one place
  unfoldable pub delete : String → Dict V → Dict V
  delete k [] = []
  delete k ((j, w) ∷ d) = let rest = delete k d in if str_eq j k then rest else (j, w) ∷ rest

  -- Object.keys(d)
  abbrev pub keys : Dict V → List String
  keys = map (λ e. e.0)

  pub lookup-insert :
      (k j : String) (v : V) (d : Dict V)
      → lookup j (insert k v d) ≡ (if str_eq k j then some v else lookup j d)
  unfolding lookup insert
  lookup-insert k j v [] = refl
  lookup-insert k j v ((i, w) ∷ d) =
      ground (arith, eq_iff k j, eq_iff i k, eq_iff i j, lookup-insert k j v d)

  pub lookup-delete :
      (k j : String) (d : Dict V)
      → lookup j (delete k d) ≡ (if str_eq k j then none else lookup j d)
  unfolding lookup delete
  lookup-delete k j [] = ground arith
  lookup-delete k j ((i, w) ∷ d) =
      ground (arith, eq_iff k j, eq_iff i k, eq_iff i j, lookup-delete k j d)

  -- A new key adds one to the number of keys.
  pub length-insert_new :
      (k : String) (v : V) (d : Dict V)
      → lookup k d ≡ none
      → length (keys (insert k v d)) ≡ suc (length (keys d))
  unfolding lookup insert
  length-insert_new k v [] h = refl
  length-insert_new k v ((i, w) ∷ d) h = ground (arith, length-insert_new k v d)

pub ruleset dict_laws = (lookup-insert, lookup-delete, str_eq_refl)
