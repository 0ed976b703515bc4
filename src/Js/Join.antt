-- ===== src/Js/Join.antt =====
-- Array.prototype.join
use relayer_node.Base.{String, List, [], ◌∷◌}
use relayer_node.Js.Text.{◌&◌}

-- texts.join(','), and texts.toString()
unfoldable pub join_commas : List String → String
join_commas [] = ""
join_commas (text ∷ []) = text
join_commas (text ∷ next ∷ texts) = text & "," & join_commas (next ∷ texts)
